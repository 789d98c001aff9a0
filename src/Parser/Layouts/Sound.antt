-- ===== src/Parser/Layouts/Sound.antt =====
-- crates/iso-parser/src/lib.rs: what stands on the medium of each boot entry.
use aegis_boot.Prelude.{◌≡◌, List}
use aegis_boot.Parser.{FilePath, IsoEnvironment, Outcome, ok, BootEntry}
use aegis_boot.Parser.Layouts.Built.{All, IsSound}

module _ (env : IsoEnvironment) (mount_point : FilePath) where
  AllSound : Outcome (List BootEntry) → Type 0
  AllSound r = (es : List BootEntry) → r ≡ ok es → All (IsSound env mount_point) es
