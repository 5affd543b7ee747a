-- ===== src/Measure/Listed.antt =====
-- The list that `sha256_libs` makes: which libraries, how many, and with which digests.
use portable_tls_ra.Base.{
  ℕ, suc, ◌+◌, ◌≡◌, refl, sym, ap, subst, ◌∙◌, ◌||◌, Option, some, List, [], ◌∷◌, Str, length, All,
  arith, Bool-cases, Option-cases, inl, inr,
}
use portable_tls_ra.Measure.Defs.{FpHtable, FileCalls, sha256_file}
use portable_tls_ra.Measure.Cache.{Digests, Implements, answer, remember, sha256_file-Implements}
use portable_tls_ra.Measure.Libs.{
  PathEntry, MapsLine, path_exists, add_path, map_file, library_of, libs_from, sha256_libs,
}
use portable_tls_ra.Measure.Reads.{
  is_named, remember-AreKept, answer-remember, IsReadable, Lists, Reads, Reads-skipped, Reads-again,
  Reads-added,
}

module _ (murmur : Str → ℕ → ℕ) (sha256 : List ℕ → Option (List ℕ)) (files : Str → FileCalls)
    (pid : ℕ) where
  libs_from-Lists :
      (lines : List MapsLine) (table : FpHtable) (known : Digests) (head : List PathEntry)
      (count : ℕ)
      → Lists murmur sha256 files pid table known head
      → All (IsReadable murmur sha256 files pid) lines
      → Reads murmur sha256 files pid lines table head count
  unfolding libs_from add_path
  libs_from-Lists [] table known head count ok readable =
      let same : count ≡ count + 0 = omega arith in
      (table, known, head, 0, rw (sym same) refl, ok, omega arith, λ q. ground arith)
  libs_from-Lists (line ∷ lines) table known head count ok readable =
      elim (Option-cases (library_of line)) [
        | inl e ↦
            Reads-skipped murmur sha256 files pid line lines table head count e
              (libs_from-Lists lines table known head count ok readable.1)
        | inr (path, e) ↦ elim (Bool-cases (path_exists head path)) [
          | inl there ↦
              Reads-again murmur sha256 files pid line lines table head count path e there
                (libs_from-Lists lines table known head count ok readable.1)
          | inr fresh ↦
              let can = readable.0 path e in
              let file = map_file pid line.start line.end in
              let d = can.2.0 in
              let given = answer-remember known path d can.2.2 in
              let call =
                sha256_file-Implements murmur sha256 files table known path file ok.0 can.0 can.1 in
              let measured = can.2.1 in
              let out : sha256_file murmur sha256 files table path file
                  ≡ some (call.0, some given.0) =
                call.1
                ∙ ap (λ m. some (call.0, answer known path m)) measured
                ∙ ap (λ a. some (call.0, a)) given.1 in
              let kept : Implements murmur call.0 (remember known path (some d)) =
                subst (λ m. Implements murmur call.0 (remember known path m)) measured call.2 in
              let head1 = add_path head path given.0 in
              let lists : Lists murmur sha256 files pid call.0 (remember known path (some d))
                  head1 =
                (kept, (fresh, ok.1), (given.2, remember-AreKept known path (some d) head ok.2)) in
              Reads-added murmur sha256 files pid line lines table call.0 head count path given.0 e
                fresh out
                (libs_from-Lists lines call.0 (remember known path (some d)) head1 (suc count) lists
                  readable.1)
        ]
      ]

  -- If no path stands twice in the list, its digests are those of the cache, and every library that a
  -- line names has a text for a path, not longer than that of its file, and a file that can be
  -- measured: sha256_libs returns how many entries it put in front of the list, in which still no path
  -- stands twice and all digests are those of the cache; and the paths in it are those that were
  -- in it before and those that the lines name.
  pub sha256_libs-Lists :
      (maps : List MapsLine) (table : FpHtable) (known : Digests) (head : List PathEntry)
      → Lists murmur sha256 files pid table known head
      → All (IsReadable murmur sha256 files pid) maps
      → (table' : FpHtable) × (known' : Digests) × (head' : List PathEntry) × (n : ℕ) × (sha256_libs
            murmur sha256 files pid
            (some maps)
            table
            head
          ≡ some (table', head', some n))
        × Lists murmur sha256 files pid table' known' head'
        × (length head' ≡ length head + n)
        × ((q : Str) → path_exists head' q ≡ (path_exists head q || is_named maps q))
  unfolding sha256_libs
  sha256_libs-Lists maps table known head ok readable =
      let read = libs_from-Lists maps table known head 0 ok readable in
      let none_before : 0 + read.3 ≡ read.3 = omega arith in
      (read.0, read.1, read.2, read.3, rw (read.4, none_before) refl, read.5, read.6, read.7)
