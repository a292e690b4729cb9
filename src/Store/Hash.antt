-- ===== src/Store/Hash.antt =====
-- The comparison by size and hash of DataStoreWorker::Process (core/store/src/DataStoreWorker.cpp).
use printer_fw.Base.{
  ℕ, ◌≡◌, refl, ap, false, some, List, ◌==◌, ==_iff, length, Bool-cases, inl, inr,
}
use printer_fw.Value.{BytesPointer, Memory, create_binary, calculate_binary_hash, read_bytes}
use printer_fw.Value.Reads.{get_binary}
use printer_fw.Value.Diff.{
  identity_diff, identity_diff-create_binary, bytes_eq, bytes_eq_iff, length-read_bytes,
}
use printer_fw.Storage.{BinaryInfo}
use printer_fw.Store.{diff_values}

hash_differs :
    (x y : List ℕ)
    → (calculate_binary_hash x == calculate_binary_hash y) ≡ false
    → bytes_eq x y ≡ false
hash_differs x y h = elim (Bool-cases (bytes_eq x y)) [
  | inl e ↦ let same = (==_iff _ _).1 (ap calculate_binary_hash ((bytes_eq_iff x y).0 e)) in cc
  | inr e ↦ e
]

-- For two binary values whose bytes can be read, where the recorded size and hash are those of the
-- old value's bytes, the comparison that looks at size and hash first answers as the full
-- comparison does.
pub diff_values-hashed :
    (memory : Memory) (info : BinaryInfo) (p q : BytesPointer) (n k : ℕ) (x y : List ℕ)
    → read_bytes memory p n ≡ some x
    → read_bytes memory q k ≡ some y
    → info.size ≡ length x
    → info.hash ≡ calculate_binary_hash x
    → diff_values memory identity_diff (some info) (create_binary p n) (create_binary q k)
      ≡ identity_diff memory (create_binary p n) (create_binary q k)
unfolding diff_values get_binary
diff_values-hashed memory info p q n k x y hp hq size hash =
    rw (identity_diff-create_binary memory p q n k hp hq, size, length-read_bytes memory p n hp)
      (elim (Bool-cases (n == k)) [
        | inl e ↦
            rw (e, hq, hash)
              (elim (Bool-cases (calculate_binary_hash x == calculate_binary_hash y)) [
                | inl same ↦ rw same refl
                | inr other ↦ rw (other, hash_differs x y other) refl
              ])
        | inr e ↦ rw e refl
      ])
