-- ===== src/Measure/Defs.antt =====
-- The cache of digests in src/libmeasure.c: `myhash`, `find_hashentry` and `sha256_file`. `none` stands for a
-- read past the end of an allocation.
use portable_tls_ra.Base.{
  ℕ, ◌+◌, ◌/◌, ◌%◌, ◌^◌, Bool, false, not, Option, none, some, List, [], ◌∷◌, ◌++◌, Str, length,
  take, get_or, set, replicate, ltb, ◌==◌, if◌then◌else◌, ◌>>=◌, bit_xor,
}

-- `struct fp_hentry` in use: the bytes allocated for its path, and the digest.
pub record FpHentry : Type 0 where
  pub path : List ℕ
  pub digest : List ℕ

abbrev pub htable_sz : ℕ
htable_sz = 512

-- `filepath_htable`: the entries that a slot leads to, the one within it first; a slot whose `path` is NULL
-- has none.
abbrev pub FpHtable : Type 0
FpHtable = List (List FpHentry)

-- `strcmp(a, b) == 0`, where `a` is an allocation.
unfoldable pub strcmp_alloc : List ℕ → Str → Option Bool
strcmp_alloc [] b = none
strcmp_alloc (c ∷ a) [] = some (c == 0)
strcmp_alloc (c ∷ a) (d ∷ b) = let rest = strcmp_alloc a b in if c == d then rest else some false

-- The loop along `next`: the digest of the entry with the path, or that there is none and a zeroed
-- entry is hung behind the last one.
unfoldable pub find_from : Str → List FpHentry → Option (Option (List ℕ))
unfolding strcmp_alloc
find_from path [] = some none
find_from path (e ∷ chain) =
    let rest = find_from path chain in
    strcmp_alloc e.path path >>= λ same. if same then some (some e.digest) else rest

-- A file as the system calls find it: whether it opens, its size, and what one `read` of that size gives.
pub record FileCalls : Type 0 where
  pub opens : Bool
  pub size : Option ℕ
  pub contents : Option (List ℕ)

-- `fp->path`: as many bytes of the library's path, with its NUL, as the path of the file has. The bytes
-- behind the NUL of a shorter library's path, which the copy takes along and nothing reads, are left out.
unfoldable pub stored_path : Str → Str → List ℕ
stored_path libpath path = take (length path + 1) (libpath ++ 0 ∷ [])

-- The digest that a new entry holds after a measurement: zeros after a failed one.
abbrev pub entry_digest : Option (List ℕ) → List ℕ
entry_digest none = replicate 32 0
entry_digest (some d) = take 32 d

-- From `open` to `EVP_DigestFinal_ex`, with the digest of OpenSSL; `none` is the way to `err1` or `err2`.
unfoldable pub measure_file : (List ℕ → Option (List ℕ)) → FileCalls → Option (List ℕ)
measure_file sha256 file =
    if not file.opens
    then none
    else file.size >>= λ size. file.contents >>= λ contents.
        if ltb (length contents) size then none else sha256 (take size contents)

module _ (murmur : Str → ℕ → ℕ) where
  unfoldable pub myhash : Str → ℕ
  myhash cp = let hash = murmur cp 0 in bit_xor (hash / 2 ^ 16) (hash % 2 ^ 16) % htable_sz

  unfoldable pub find_hashentry : Str → FpHtable → Option (Option (List ℕ))
  unfolding find_from
  find_hashentry path table = find_from path (get_or table (myhash path) [])

  -- The table, and the digest that is put out; the inner `none` is the result -1.
  unfoldable pub sha256_file :
      (List ℕ → Option (List ℕ))
      → (Str → FileCalls)
      → FpHtable
      → Str
      → Str
      → Option (FpHtable × Option (List ℕ))
  unfolding find_hashentry stored_path measure_file
  sha256_file sha256 files table libpath path = find_hashentry libpath table >>= λ found.
      elim found [
        | some digest ↦ some (table, some digest)
        | none ↦
            let measured = measure_file sha256 (files path) in
            let hash = myhash libpath in
            let entry : FpHentry = record {
              path = stored_path libpath path;
              digest = entry_digest measured;
            } in
            some (set table hash (get_or table hash [] ++ entry ∷ []), measured)
      ]

-- The zeroed array.
abbrev pub no_digests : FpHtable
no_digests = replicate htable_sz []
