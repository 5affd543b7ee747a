-- ===== src/Measure/Reads.antt =====
-- One line of `sha256_libs`, and the list that it leaves: which libraries, how many, and with which digests.
use portable_tls_ra.Base.{
  ℕ, suc, ◌+◌, ◌≡◌, ◌≤◌, sym, ap, subst, ◌∙◌, Bool, true, false, ◌||◌, Option, none, some, List, [],
  ◌∷◌, Str, IsText, bytes_eq, bytes_eq_iff, bytes_eq_refl, length, take, take_all, All, arith,
  Option-cases, inl, inr,
}
use portable_tls_ra.Measure.Defs.{FpHtable, FileCalls, measure_file, sha256_file}
use portable_tls_ra.Measure.Cache.{Digests, Implements, answer, remember}
use portable_tls_ra.Measure.Libs.{
  PathEntry, MapsLine, path_exists, add_path, map_file, library_of, libs_from,
}

-- No path stands twice in the list.
abbrev pub HasDistinctPaths : List PathEntry → Type 0
HasDistinctPaths [] = Unit
HasDistinctPaths (e ∷ es) = (path_exists es e.path ≡ false) × HasDistinctPaths es

-- One of the lines gives the path.
abbrev pub is_named : List MapsLine → Str → Bool
is_named [] q = false
is_named (line ∷ lines) q = elim (library_of line) [
  | none ↦ is_named lines q
  | some path ↦ bytes_eq path q || is_named lines q
]

-- The digests in the list are those that are kept.
abbrev pub AreKept : Digests → List PathEntry → Type 0
AreKept known head = All (λ e. known e.path ≡ some e.digest) head

remember_old :
    (known : Digests) (libpath q : Str) (measured : Option (List ℕ)) (d : List ℕ)
    → known q ≡ some d
    → remember known libpath measured q ≡ some d
remember_old known libpath q measured d old =
    let agree : bytes_eq libpath q ≡ true → known libpath ≡ some d =
      λ e. subst (λ p. known p ≡ some d) (sym ((bytes_eq_iff libpath q).0 e)) old in
    ground (arith, old, agree)

pub remember-AreKept :
    (known : Digests) (libpath : Str) (measured : Option (List ℕ)) (head : List PathEntry)
    → AreKept known head
    → AreKept (remember known libpath measured) head
remember-AreKept known libpath measured [] kept = tt
remember-AreKept known libpath measured (e ∷ es) kept = (
  remember_old known libpath e.path measured e.digest kept.0,
  remember-AreKept known libpath measured es kept.1,
)

-- What is put out after a measurement that succeeds is what is kept.
pub answer-remember :
    (known : Digests) (libpath : Str) (d : List ℕ)
    → length d ≡ 32
    → (d' : List ℕ) × (answer known libpath (some d) ≡ some d')
      × (remember known libpath (some d) libpath ≡ some d')
answer-remember known libpath d whole = elim (Option-cases (known libpath)) [
  | inl new ↦
      let all : take 32 d ≡ d = take_all 32 d (omega (arith, whole)) in
      (d, ground (arith, new), ground (arith, new, all, bytes_eq_refl libpath))
  | inr (d', old) ↦ (d', ground (arith, old), ground (arith, old))
]

-- A path that is in the list already adds nothing to it.
path_exists_again :
    (head : List PathEntry) (path q : Str) (others : Bool)
    → path_exists head path ≡ true
    → (path_exists head q || others) ≡ (path_exists head q || (bytes_eq path q || others))
path_exists_again head path q others there =
    let agree : bytes_eq path q ≡ true → path_exists head q ≡ true =
      λ e. subst (λ p. path_exists head p ≡ true) ((bytes_eq_iff path q).0 e) there in
    ground (arith, agree)

module _ (murmur : Str → ℕ → ℕ) (sha256 : List ℕ → Option (List ℕ)) (files : Str → FileCalls)
    (pid : ℕ) where
  -- The library of the line, if it gives one, has a text for a path, not longer than that of its file, and its
  -- file can be measured.
  abbrev pub IsReadable : MapsLine → Type 0
  IsReadable line =
      (path : Str)
      → library_of line ≡ some path
      → IsText path
        × (length path ≤ length (map_file pid line.start line.end))
        × ((d : List ℕ) × (measure_file sha256 (files (map_file pid line.start line.end)) ≡ some d)
            × (length d ≡ 32))

  abbrev pub Lists : FpHtable → Digests → List PathEntry → Type 0
  Lists table known head =
      Implements murmur table known × HasDistinctPaths head × AreKept known head

  -- Lines read from a state: the loop ends in a state that lists their libraries too.
  abbrev pub Reads : List MapsLine → FpHtable → List PathEntry → ℕ → Type 0
  Reads lines table head count =
      (table' : FpHtable) × (known' : Digests) × (head' : List PathEntry) × (n : ℕ) × (libs_from
          murmur sha256 files pid lines table head count
        ≡ some (table', head', count + n))
      × Lists table' known' head'
      × (length head' ≡ length head + n)
      × ((q : Str) → path_exists head' q ≡ (path_exists head q || is_named lines q))

  pub Reads-skipped :
      (line : MapsLine) (lines : List MapsLine) (table : FpHtable) (head : List PathEntry)
      (count : ℕ)
      → library_of line ≡ none
      → Reads lines table head count
      → Reads (line ∷ lines) table head count
  unfolding libs_from
  Reads-skipped line lines table head count e rest =
      let step : libs_from murmur sha256 files pid (line ∷ lines) table head count
          ≡ libs_from murmur sha256 files pid lines table head count =
        simp (libs_from, e) in
      (
        rest.0,
        rest.1,
        rest.2,
        rest.3,
        step ∙ rest.4,
        rest.5,
        rest.6,
        λ q. ground (arith, rest.7 q, e),
      )

  pub Reads-again :
      (line : MapsLine) (lines : List MapsLine) (table : FpHtable) (head : List PathEntry)
      (count : ℕ) (path : Str)
      → library_of line ≡ some path
      → path_exists head path ≡ true
      → Reads lines table head count
      → Reads (line ∷ lines) table head count
  unfolding libs_from
  Reads-again line lines table head count path e there rest =
      let step : libs_from murmur sha256 files pid (line ∷ lines) table head count
          ≡ libs_from murmur sha256 files pid lines table head count =
        simp (libs_from, e, there) in
      (
        rest.0,
        rest.1,
        rest.2,
        rest.3,
        step ∙ rest.4,
        rest.5,
        rest.6,
        λ q. ground (arith, rest.7 q, e, path_exists_again head path q (is_named lines q) there),
      )

  pub Reads-added :
      (line : MapsLine) (lines : List MapsLine) (table table1 : FpHtable) (head : List PathEntry)
      (count : ℕ) (path : Str) (d : List ℕ)
      → library_of line ≡ some path
      → path_exists head path ≡ false
      → sha256_file murmur sha256 files table path (map_file pid line.start line.end)
        ≡ some (table1, some d)
      → Reads lines table1 (add_path head path d) (suc count)
      → Reads (line ∷ lines) table head count
  unfolding libs_from path_exists add_path
  Reads-added line lines table table1 head count path d e fresh measured rest =
      let step : libs_from murmur sha256 files pid (line ∷ lines) table head count
          ≡ libs_from murmur sha256 files pid lines table1 (add_path head path d) (suc count) =
        simp (libs_from, e, fresh, measured) in
      let next : suc count + rest.3 ≡ count + suc rest.3 = omega arith in
      let size = rest.6 in
      (
        rest.0,
        rest.1,
        rest.2,
        suc rest.3,
        step ∙ rest.4 ∙ ap (λ n. some (rest.0, rest.2, n)) next,
        rest.5,
        omega (arith, size),
        λ q. ground (arith, rest.7 q, e),
      )
