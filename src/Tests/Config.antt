-- ===== src/Tests/Config.antt =====
-- A configuration file of two processes, written and read.
use portable_tls_ra.Base.{ℕ, ◌≡◌, some, [], ◌∷◌, Str, length}
use portable_tls_ra.Pica.Types.{Procinfo}
use portable_tls_ra.Pica.Procinfo.Roundtrip.{procinfo_of}
use portable_tls_ra.Pica.Config.Written.{layout, reg_config-layout}
use portable_tls_ra.Pica.Config.Write.{reg_config}
use portable_tls_ra.Tests.Procinfo.{shell, editor, shell-IsMeasured, editor-IsMeasured}

-- Every pointer is 4096.
abbrev pub address : Procinfo → ℕ
address p = 4096

-- Each path hashes to its length.
abbrev pub hash : Str → ℕ → ℕ
hash s seed = length s

reg_config-layout_example :
    reg_config address address (procinfo_of shell ∷ procinfo_of editor ∷ [])
    ≡ some (layout address address (shell ∷ editor ∷ []))
reg_config-layout_example =
    reg_config-layout address address (shell ∷ editor ∷ [])
      (shell-IsMeasured, (editor-IsMeasured, tt))
