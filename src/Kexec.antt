-- ===== src/Kexec.antt =====
-- crates/kexec-loader/src/lib.rs: the errors of a kexec, their classification from an errno, and
-- the order in which a load may fail. The system calls themselves are answers of the environment.
use aegis_boot.Prelude.{ℕ, Option, some, Text, ℤ, pos, negsuc, ◌==◌, if◌then◌else◌}

-- An `io::Error`: its text, and the errno that it carries if it came from the system.
pub record IoError : Type 0 where
  pub text : Text
  pub raw_os_error : Option ℤ

pub data KexecError : Type 0 where
  signature_rejected lockdown_refused unsupported_image already_loaded : KexecError
  image_too_large permission_denied out_of_memory unsupported : KexecError
  io : IoError → KexecError
  invalid_path : Text → KexecError

pub record KexecRequest : Type 0 where
  pub kernel : Text
  pub initrd : Option Text
  pub cmdline : Text

-- The errnos of Linux that the source names.
abbrev pub eperm : ℕ
eperm = 1

abbrev pub enoexec : ℕ
enoexec = 8

abbrev pub enomem : ℕ
enomem = 12

abbrev pub eacces : ℕ
eacces = 13

abbrev pub ebusy : ℕ
ebusy = 16

abbrev pub efbig : ℕ
efbig = 27

abbrev pub ekeyrejected : ℕ
ekeyrejected = 129

-- `io::Error::from_raw_os_error`, whose text is the system's.
abbrev os_error : (ℤ → Text) → ℤ → KexecError
os_error strerror errno = io (record { text = strerror errno; raw_os_error = some errno })

unfoldable pub classify_errno : (ℤ → Text) → ℤ → KexecError
classify_errno strerror (pos n) =
    if n == ekeyrejected
    then signature_rejected
    else if n == eperm
    then lockdown_refused
    else if n == enoexec
    then unsupported_image
    else if n == ebusy
    then already_loaded
    else if n == efbig
    then image_too_large
    else if n == eacces
    then permission_denied
    else if n == enomem
    then out_of_memory
    else os_error strerror (pos n)
classify_errno strerror (negsuc n) = os_error strerror (negsuc n)
