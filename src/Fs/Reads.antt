-- ===== src/Fs/Reads.antt =====
-- The bounds of `fs_initrd_read` of src/fs_initrd.c.
use zosys.Common.{
  ℕ, ◌+◌, ◌-◌, ◌%◌, ◌^◌, ◌≤◌, ◌<◌, ◌≡◌, ◌⊎◌, inl, inr, refl, arith, some, List, [], if◌then◌else◌,
  ltb, leb, min, length-take, length-drop, length, take, drop, Bool-cases,
}
use zosys.Common.Int.{pos, minus_one}
use zosys.Common.Run.{ok}
use zosys.Fs.Initrd.{InitrdEntry, entry_at, copy_out, fs_initrd_read}

-- The count after the code's test.
count_lem :
    (size count at : ℕ)
    → at < size
    → size < 2 ^ 16
    → count < 2 ^ 16
    → (if ltb size ((at + count) % 2 ^ 32) then size - at else count) ≡ min count (size - at)
count_lem size count at h hs hc = ground arith

-- A read of a file in the image, of fewer than 2 ^ 16 bytes, from before its end, gives the bytes
-- from that place on: as many as asked for, fewer than 2 ^ 16, or those up to the end if that is
-- less, and as many as the result says. From the end on it gives -1 and no byte.
fs_initrd_read_lem :
    (es : List InitrdEntry) (inode count at : ℕ) (e : InitrdEntry) (bytes : List ℕ)
    → entry_at es inode ≡ some e
    → e.content ≡ some bytes
    → length bytes < 2 ^ 16
    → count < 2 ^ 16
    → (let n = min count (length bytes - at) in
        (at < length bytes)
        × (fs_initrd_read es inode count at ≡ ok (pos n, take n (drop at bytes)))
        × (length (take n (drop at bytes)) ≡ n))
      ⊎ ((length bytes ≤ at) × (fs_initrd_read es inode count at ≡ ok (minus_one, [])))
unfolding fs_initrd_read
fs_initrd_read_lem es inode count at e bytes here has small hc =
    let n = min count (length bytes - at) in
    elim (Bool-cases (leb (length bytes) at)) [
      | inr inside ↦ inl (
        ground arith,
        rw
            (
              fs_initrd_read,
              here,
              copy_out,
              has,
              inside,
              count_lem (length bytes) count at (ground arith) small hc,
            )
            refl,
        length-take n (drop at bytes) (let l = length-drop at bytes in omega arith),
      )
      | inl past ↦ inr (ground arith, rw (fs_initrd_read, here, copy_out, has, past) refl)
    ]
