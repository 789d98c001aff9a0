-- ===== src/Tests/Fixtures.antt =====
-- A stick of three ISOs, and a world that refuses every kexec.
use aegis_boot.Prelude.{ℕ, Bool, true, false, none, some, List, [], ◌∷◌, Text, codes}
use aegis_boot.Iso.{DiscoveredIso, Distribution, HashVerification, SignatureVerification}
use aegis_boot.Network.{LinkState}
use aegis_boot.Catalog.{Entry, SbStatus, Category, Vendor, SigPattern}
use aegis_boot.Kexec.{lockdown_refused}
use aegis_boot.Status.{Efivars}
use aegis_boot.App.Overlay.{ok, err}
use aegis_boot.EventLoop.Kexec.{Env}

abbrev pub iso_named : Text → ℕ → HashVerification → Bool → DiscoveredIso
iso_named label size hash installer = record {
  iso_path = label;
  label = label;
  pretty_name = none;
  distribution = Distribution.debian;
  kernel = codes "vmlinuz";
  initrd = none;
  cmdline = some (codes "quiet");
  quirks = [];
  hash_verification = hash;
  signature_verification = SignatureVerification.not_present;
  size_bytes = some size;
  contains_installer = installer;
  sidecar = none;
}

abbrev pub debian : DiscoveredIso
debian =
    iso_named (codes "debian") 20 (HashVerification.verified (codes "ab") (codes "SHA256SUMS"))
      false

abbrev pub alpine : DiscoveredIso
alpine = iso_named (codes "alpine") 10 HashVerification.not_present false

abbrev pub mint : DiscoveredIso
mint = iso_named (codes "mint") 30 HashVerification.not_present true

abbrev pub three_isos : List DiscoveredIso
three_isos = debian ∷ alpine ∷ mint ∷ []

-- A file system whose one variable says that Secure Boot is on.
abbrev pub firmware : Efivars
firmware = record {
  read = λ path. some (6 ∷ 0 ∷ 0 ∷ 0 ∷ 1 ∷ []);
  read_dir = λ path. none;
  exists = λ path. false;
}

abbrev pub world : Env
world = record {
  interfaces = record { name = codes "eth0"; link_state = LinkState.up; ipv4 = none } ∷ [];
  catalog = [];
  keyring = ok tt;
  perform_iso_delete = λ path. ok tt;
  prepare = λ iso. ok (record { kernel = iso.kernel; initrd = none; cmdline = iso.cmdline });
  load_and_exec = λ req. lockdown_refused;
  mok_remedy = λ iso. codes "enroll the key";
  save_verify_audit_log = λ path outcome. err (codes "read-only");
}

abbrev pub entry : Entry
entry = record {
  slug = codes "alpine";
  name = codes "Alpine";
  arch = codes "x86_64";
  size_mib = 200;
  iso_url = codes "i";
  sha256_url = codes "s";
  sig_url = codes "g";
  sb = SbStatus.unknown;
  purpose = codes "p";
  category = Category.server;
  vendor = Vendor.alpine;
  verify = SigPattern.detached_sig_on_iso;
}
