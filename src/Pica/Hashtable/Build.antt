-- ===== src/Pica/Hashtable/Build.antt =====
-- What `pica_build_hashtable` and the loop of `pica_read_config` leave in the table: for each path
-- the first configured process of that path.
use portable_tls_ra.Base.{
  ℕ, zero, suc, ◌≡◌, refl, ◌≢◌, Option, none, some, List, [], ◌∷◌, Str, bytes_eq, ◌==◌,
  if◌then◌else◌, arith, inl, inr, Option-cases,
}
use portable_tls_ra.Pica.Types.{Procinfo, pica_ent_conf_procinfo}
use portable_tls_ra.Pica.Hashtable.Defs.{
  Slot, empty_htable, reg_hashtable, find_hashtable, reg_procs, pica_build_hashtable,
}
use portable_tls_ra.Pica.Hashtable.Refines.{
  IsHtable, empty_htable-IsHtable, reg_hashtable-IsHtable, find-reg_hashtable, find_empty,
}

-- The specification of a lookup: the first of the first `n` processes that has the path.
abbrev pub first_named : Str → ℕ → List Procinfo → Option Procinfo
first_named q zero ps = none
first_named q (suc n) [] = none
first_named q (suc n) (p ∷ ps) = elim p.path [
  | none ↦ first_named q n ps
  | some path ↦ if bytes_eq path q then some p else first_named q n ps
]

-- The array holds `n` processes, and each has a path.
abbrev pub IsNamed : ℕ → List Procinfo → Type 0
IsNamed zero ps = Unit {0}
IsNamed (suc n) [] = ⊥
IsNamed (suc n) (p ∷ ps) = (p.path ≢ none) × IsNamed n ps

module _ (murmur : Str → ℕ → ℕ) where
  -- What the table finds after the loop, over what it found before.
  abbrev pub Extends : ℕ → List Procinfo → List (Slot Procinfo) → List (Slot Procinfo) → Type 0
  Extends n ps t t' =
      (q : Str) (k : ℕ)
      → find_hashtable murmur q k t' ≡ elim (find_hashtable murmur q k t) [
        | some a ↦ some a
        | none ↦ if pica_ent_conf_procinfo == k then first_named q n ps else none
      ]

  pub reg_procs-Extends :
      (n : ℕ) (ps : List Procinfo) (t : List (Slot Procinfo))
      → IsHtable t
      → IsNamed n ps
      → (t' : List (Slot Procinfo)) × (reg_procs murmur n ps t ≡ some t')
        × IsHtable t'
        × Extends n ps t t'
  unfolding reg_procs
  reg_procs-Extends zero ps t ok named = (t, refl, ok, λ q k. ground arith)
  reg_procs-Extends (suc n) [] t ok named = absurd named
  reg_procs-Extends (suc n) (p ∷ ps) t ok named = elim (Option-cases p.path) [
    | inl e ↦ absurd (named.0 e)
    | inr (path, e) ↦
        let t1 = reg_hashtable murmur pica_ent_conf_procinfo p path t in
        let rest =
          reg_procs-Extends n ps t1
            (reg_hashtable-IsHtable murmur pica_ent_conf_procinfo p path t ok) named.1 in
        (
          rest.0,
          simp e rest.1,
          rest.2,
          λ q k.
              ground (
                arith,
                rest.3 q k,
                find-reg_hashtable murmur pica_ent_conf_procinfo p path t ok q k,
              ),
        )
  ]

  -- Building the table from an array in which every process has a path succeeds, and the table
  -- then finds under a path of kind PICA_ENT_CONF_PROCINFO the first process of the array that has
  -- it, and nothing under any other kind.
  pub pica_build_hashtable-first_named :
      (ps : List Procinfo) (n : ℕ)
      → IsNamed n ps
      → (t : List (Slot Procinfo)) × (pica_build_hashtable murmur ps n ≡ some t)
        × ((q : Str) (k : ℕ)
            → find_hashtable murmur q k t
              ≡ (if pica_ent_conf_procinfo == k then first_named q n ps else none))
  unfolding pica_build_hashtable
  pica_build_hashtable-first_named ps n named =
      let built = reg_procs-Extends n ps empty_htable empty_htable-IsHtable named in
      (built.0, built.1, λ q k. ground (arith, built.3 q k, find_empty murmur {A = Procinfo} q k))
