-- ===== src/Measure/Cache.antt =====
-- The cache of `sha256_file` against a map from paths to digests.
use portable_tls_ra.Base.{
  ℕ, ◌+◌, ◌≡◌, ◌≤◌, ◌<◌, refl, sym, ap, subst, ◌∙◌, true, false, Option, none, some, List, [], ◌∷◌,
  ◌++◌, Str, IsText, bytes_eq, bytes_eq_iff, length, length-append, length-set, length-replicate,
  get_or-set, get_or-replicate, take_all, All, get_or, set, ◌==◌, if◌then◌else◌, arith, Bool-cases,
  Option-cases, All-append, ==_iff, inl, inr,
}
use portable_tls_ra.Measure.Defs.{
  FpHentry, FpHtable, FileCalls, htable_sz, strcmp_alloc, find_from, stored_path, myhash,
  find_hashentry, no_digests, measure_file, entry_digest, sha256_file,
}

-- The path of the entry is a text with its NUL.
abbrev pub IsFpHentry : FpHentry → Type 0
IsFpHentry e = (s : Str) × IsText s × (e.path ≡ s ++ 0 ∷ [])

abbrev pub IsFpHtable : FpHtable → Type 0
IsFpHtable table = (length table ≡ htable_sz) × ((i : ℕ) → All IsFpHentry (get_or table i []))

strcmp_alloc_text :
    (s q : Str) → IsText s → IsText q → strcmp_alloc (s ++ 0 ∷ []) q ≡ some (bytes_eq s q)
unfolding strcmp_alloc bytes_eq
strcmp_alloc_text [] [] ok_s ok_q = refl
strcmp_alloc_text [] (d ∷ q) ok_s ok_q = ground (arith, ok_q.0)
strcmp_alloc_text (c ∷ s) [] ok_s ok_q = ground (arith, ok_s.0)
strcmp_alloc_text (c ∷ s) (d ∷ q) ok_s ok_q =
    let rest = strcmp_alloc_text s q ok_s.1 ok_q.1 in ground (arith, rest)

strcmp_entry :
    (e : FpHentry) (ok : IsFpHentry e) (q : Str)
    → IsText q
    → strcmp_alloc e.path q ≡ some (bytes_eq ok.0 q)
strcmp_entry e ok q ok_q = rw ok.2 (strcmp_alloc_text ok.0 q ok.1 ok_q)

-- A search among entries that are texts ends.
find_from_total :
    (chain : List FpHentry) (q : Str)
    → All IsFpHentry chain
    → IsText q
    → (r : Option (List ℕ)) × (find_from q chain ≡ some r)
unfolding find_from
find_from_total [] q ok ok_q = (none, refl)
find_from_total (e ∷ chain) q ok ok_q =
    let rest = find_from_total chain q ok.1 ok_q in
    let here = strcmp_entry e ok.0 q ok_q in
    ((if bytes_eq ok.0.0 q then some e.digest else rest.0), rw here (ground (arith, rest.1)))

-- An entry hung behind the others is found by its path if none before it is.
find_from-append :
    (chain : List FpHentry) (e : FpHentry) (s q : Str) (r : Option (List ℕ))
    → find_from q chain ≡ some r
    → strcmp_alloc e.path q ≡ some (bytes_eq s q)
    → find_from q (chain ++ e ∷ [])
      ≡ some (elim r [ some d ↦ some d | none ↦ if bytes_eq s q then some e.digest else none ])
unfolding find_from
find_from-append [] e s q r found here = ground (arith, found, here)
find_from-append (e' ∷ chain) e s q r found here = elim (Option-cases (strcmp_alloc e'.path q)) [
  | inl e0 ↦ absurd (ground (arith, found, e0))
  | inr (true, e1) ↦ ground (arith, found, e1)
  | inr (false, e1) ↦
      let after : find_from q chain ≡ some r = ground (arith, found, e1) in
      let rest = find_from-append chain e s q r after here in rw e1 rest
]

-- A map from paths to the digests that were put out for them.
abbrev pub Digests : Type 0
Digests = Str → Option (List ℕ)

-- The specification of a measurement: what is known is given, and what is not is measured and kept.
abbrev pub answer : Digests → Str → Option (List ℕ) → Option (List ℕ)
answer known libpath measured = elim (known libpath) [ some d ↦ some d | none ↦ measured ]

abbrev pub remember : Digests → Str → Option (List ℕ) → Digests
remember known libpath measured q = elim (known libpath) [
  | some d ↦ known q
  | none ↦ if bytes_eq libpath q then some (entry_digest measured) else known q
]

module _ (murmur : Str → ℕ → ℕ) where
  -- The table is well-formed, and finds what the map holds.
  abbrev pub Implements : FpHtable → Digests → Type 0
  Implements table known =
      IsFpHtable table × ((q : Str) → IsText q → find_hashentry murmur q table ≡ some (known q))

  pub find_no_digests : (q : Str) → find_hashentry murmur q no_digests ≡ some none
  unfolding find_hashentry find_from
  find_no_digests q = rw (get_or-replicate {A = List FpHentry} htable_sz (myhash murmur q) []) refl

  pub no_digests-Implements : Implements no_digests (λ q. none)
  unfolding find_hashentry find_from
  no_digests-Implements = (
    (
      length-replicate {A = List FpHentry} htable_sz [],
      λ i. rw (get_or-replicate {A = List FpHentry} htable_sz i []) tt,
    ),
    λ q ok. rw (get_or-replicate {A = List FpHentry} htable_sz (myhash murmur q) []) refl,
  )

  pub myhash_bounds : (path : Str) → myhash murmur path < htable_sz
  unfolding myhash
  myhash_bounds path = ground arith

  -- The new entry of a measurement that the path of the file leaves room for.
  abbrev new_entry : Str → Option (List ℕ) → FpHentry
  new_entry libpath measured = record { path = libpath ++ 0 ∷ []; digest = entry_digest measured }

  module _ (table : FpHtable) (known : Digests) (ok : Implements table known) (libpath : Str)
      (measured : Option (List ℕ)) (text : IsText libpath) where
    abbrev chain : List FpHentry
    chain = get_or table (myhash murmur libpath) []

    abbrev entered : FpHtable
    entered = set table (myhash murmur libpath) (chain ++ new_entry libpath measured ∷ [])

    slot_of :
        (i : ℕ)
        → get_or entered i [] ≡ (
            if myhash murmur libpath == i
            then chain ++ new_entry libpath measured ∷ []
            else get_or table i [])
    slot_of i =
        get_or-set table (myhash murmur libpath) i (chain ++ new_entry libpath measured ∷ []) []
          (rw ok.0.0 (myhash_bounds libpath))

    entered-IsFpHtable : IsFpHtable entered
    entered-IsFpHtable = (
      length-set table (myhash murmur libpath) (chain ++ new_entry libpath measured ∷ []) ∙ ok.0.0,
      λ i. rw (slot_of i) (elim (Bool-cases (myhash murmur libpath == i)) [
        | inl e ↦ rw e (
            All-append IsFpHentry chain (new_entry libpath measured ∷ [])
              (ok.0.1 (myhash murmur libpath)) ((libpath, text, refl), tt))
        | inr n ↦ rw n (ok.0.1 i)
      ]),
    )

    entered_finds :
        known libpath ≡ none
        → (q : Str) → IsText q
        → find_hashentry murmur q entered ≡ some (remember known libpath measured q)
    unfolding find_hashentry
    entered_finds new q ok_q =
        rw (slot_of (myhash murmur q))
          (elim (Bool-cases (myhash murmur libpath == myhash murmur q)) [
            | inl e ↦
                let same = (==_iff (myhash murmur libpath) (myhash murmur q)).0 e in
                let before : find_from q chain ≡ some (known q) = rw same (ok.1 q ok_q) in
                let here = strcmp_alloc_text libpath q text ok_q in
                let now =
                  find_from-append chain (new_entry libpath measured) libpath q (known q) before
                    here in
                let agree : bytes_eq libpath q ≡ true → known q ≡ none =
                  λ eq. subst (λ p. known p ≡ none) ((bytes_eq_iff libpath q).0 eq) new in
                rw e (now ∙ ground (arith, agree, new))
            | inr n ↦
                let other : bytes_eq libpath q ≡ false = ground (arith, bytes_eq_iff libpath q) in
                rw n (ok.1 q ok_q ∙ ground (arith, new, other))
          ])

  stored_path_whole :
      (libpath path : Str)
      → length libpath ≤ length path
      → stored_path libpath path ≡ libpath ++ 0 ∷ []
  unfolding stored_path
  stored_path_whole libpath path shorter =
      take_all (length path + 1) (libpath ++ 0 ∷ [])
        (omega (arith, shorter, length-append libpath (0 ∷ [])))

  -- In a well-formed table that finds what a map from paths to digests holds, and for a path that is a
  -- text and not longer than the path of the file behind it: sha256_file gives the digest that the map has,
  -- or else what it measures of the file (the result -1 if that fails). The table is then well-formed and
  -- finds what the map holds with, if the path was new, the measured digest under it, or 32 zeros after
  -- a failure.
  pub sha256_file-Implements :
      (sha256 : List ℕ → Option (List ℕ)) (files : Str → FileCalls) (table : FpHtable)
      (known : Digests) (libpath path : Str)
      → Implements table known
      → IsText libpath
      → length libpath ≤ length path
      → (table' : FpHtable) × (sha256_file murmur sha256 files table libpath path
          ≡ some (table', answer known libpath (measure_file sha256 (files path))))
        × Implements table' (remember known libpath (measure_file sha256 (files path)))
  unfolding sha256_file
  sha256_file-Implements sha256 files table known libpath path ok text shorter =
      let measured = measure_file sha256 (files path) in
      let found = ok.1 libpath text in
      elim (Option-cases (known libpath)) [
        | inl new ↦
            let fresh : answer known libpath measured ≡ measured = ground (arith, new) in
            let stored = stored_path_whole libpath path shorter in
            (
              entered table known ok libpath measured text,
              rw (found, new, stored)
                  (ap (λ a. some (entered table known ok libpath measured text, a)) (sym fresh)),
              (
                entered-IsFpHtable table known ok libpath measured text,
                entered_finds table known ok libpath measured text new,
              ),
            )
        | inr (d, old) ↦
            let given : answer known libpath measured ≡ some d = ground (arith, old) in
            (
              table,
              rw (found, old) (ap (λ a. some (table, a)) (sym given)),
              (ok.0, λ q ok_q. ok.1 q ok_q ∙ ground (arith, old)),
            )
      ]
