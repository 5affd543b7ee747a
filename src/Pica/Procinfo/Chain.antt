-- ===== src/Pica/Procinfo/Chain.antt =====
-- `mycbor_pack_procchain` of tpm2/libcbor.c: the walk from a process to its parents. What is measured of a
-- process, its parent among it, is a parameter; the list of the code's `top` is kept in front.
use portable_tls_ra.Base.{
  ℕ, zero, suc, ◌<◌, ◌≡◌, ◌≢◌, refl, false, Option, none, some, List, [], ◌∷◌, ◌++◌, append_assoc,
  length, length-append, get_elem?, ◌==◌, if◌then◌else◌, arith, ap, ◌∙◌, subst, append-nil,
}
use portable_tls_ra.Pica.Procinfo.Encode.{Measured}

module _ (measure : ℕ → Measured) where
  -- The loop, with `fuel` rounds left: `none` if it is still running after them.
  unfoldable pub pack_from : ℕ → ℕ → List Measured → Option (List Measured)
  pack_from zero pid top = none
  pack_from (suc fuel) pid top =
      let m = measure pid in
      let rest = pack_from fuel m.ppid (m ∷ top) in if m.ppid == 1 then some (m ∷ top) else rest

  -- The processes in the order in which their maps are pushed into the array.
  unfoldable pub mycbor_pack_procchain : ℕ → ℕ → Option (List Measured)
  unfolding pack_from
  mycbor_pack_procchain fuel pid = pack_from fuel pid []

  -- The `k`th parent of a process.
  abbrev pub ancestor : ℕ → ℕ → ℕ
  ancestor zero pid = pid
  ancestor (suc k) pid = ancestor k (measure pid).ppid

  -- The process after its parents up to the `k`th, the oldest first.
  abbrev pub lineage : ℕ → ℕ → List Measured
  lineage zero pid = measure pid ∷ []
  lineage (suc k) pid = lineage k (measure pid).ppid ++ measure pid ∷ []

  pack_from-lineage :
      (k fuel pid : ℕ) (top : List Measured)
      → ((j : ℕ) → j < k → (measure (ancestor j pid)).ppid ≢ 1)
      → (measure (ancestor k pid)).ppid ≡ 1
      → k < fuel
      → pack_from fuel pid top ≡ some (lineage k pid ++ top)
  unfolding pack_from
  pack_from-lineage k zero pid top later ends enough = absurd (omega arith)
  pack_from-lineage zero (suc fuel) pid top later ends enough = ground arith
  pack_from-lineage (suc k) (suc fuel) pid top later ends enough =
      let m = measure pid in
      let goes_on = later 0 (omega arith) in
      let rest =
        pack_from-lineage k fuel m.ppid (m ∷ top) (λ j less. later (suc j) (omega arith)) ends
          (omega arith) in
      let regroup = append_assoc (lineage k m.ppid) (m ∷ []) top in
      let other : (m.ppid == 1) ≡ false = ground arith in rw (other, regroup) rest

  pack_from_spins :
      (fuel pid : ℕ) (top : List Measured)
      → ((j : ℕ) → (measure (ancestor j pid)).ppid ≢ 1)
      → pack_from fuel pid top ≡ none
  unfolding pack_from
  pack_from_spins zero pid top never = refl
  pack_from_spins (suc fuel) pid top never =
      let m = measure pid in
      let goes_on = never 0 in
      let rest = pack_from_spins fuel m.ppid (m ∷ top) (λ j. never (suc j)) in
      let other : (m.ppid == 1) ≡ false = ground arith in rw other rest

  length-lineage : (k pid : ℕ) → length (lineage k pid) ≡ suc k
  length-lineage zero pid = refl
  length-lineage (suc k) pid = omega (
    arith,
    length-append (lineage k (measure pid).ppid) (measure pid ∷ []),
    length-lineage k (measure pid).ppid,
  )

  get_elem?-append_length :
      (ms : List Measured) (m : Measured) → get_elem? (ms ++ m ∷ []) (length ms) ≡ some m
  get_elem?-append_length [] m = refl
  get_elem?-append_length (x ∷ ms) m = get_elem?-append_length ms m

  -- The last process of the lineage is the one that it was asked for.
  get_elem?-lineage : (k pid : ℕ) → get_elem? (lineage k pid) k ≡ some (measure pid)
  get_elem?-lineage zero pid = refl
  get_elem?-lineage (suc k) pid =
      subst (λ n. get_elem? (lineage (suc k) pid) n ≡ some (measure pid))
        (length-lineage k (measure pid).ppid)
        (get_elem?-append_length (lineage k (measure pid).ppid) (measure pid))

  -- If the `k`th parent is the first one whose own parent is process 1, the walk ends after k + 1 rounds,
  -- with the process and its parents up to this one, the oldest first; the last of the k + 1 is the
  -- process that the walk was started for.
  pub mycbor_pack_procchain-lineage :
      (k fuel pid : ℕ)
      → ((j : ℕ) → j < k → (measure (ancestor j pid)).ppid ≢ 1)
      → (measure (ancestor k pid)).ppid ≡ 1
      → k < fuel
      → (mycbor_pack_procchain fuel pid ≡ some (lineage k pid))
        × (length (lineage k pid) ≡ suc k)
        × (get_elem? (lineage k pid) k ≡ some (measure pid))
  unfolding mycbor_pack_procchain
  mycbor_pack_procchain-lineage k fuel pid later ends enough = (
    pack_from-lineage k fuel pid [] later ends enough ∙ ap some (append-nil (lineage k pid)),
    length-lineage k pid,
    get_elem?-lineage k pid,
  )

  -- A chain of parents that never meets a child of process 1 keeps the walk in its loop.
  pub mycbor_pack_procchain_spins :
      (fuel pid : ℕ)
      → ((j : ℕ) → (measure (ancestor j pid)).ppid ≢ 1)
      → mycbor_pack_procchain fuel pid ≡ none
  unfolding mycbor_pack_procchain
  mycbor_pack_procchain_spins fuel pid never = pack_from_spins fuel pid [] never
