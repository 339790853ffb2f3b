-- ===== src/Target.antt =====
-- What a build is for: the `target_os` and `target_arch` that the `cfg` lines test, and
-- `FRAMEHOP_SUPPORTED` of lib.rs.
use framehopunwind.Base.{Bool, true, false}

pub data Arch : Type 0 where
  x86_64 aarch64 other_arch : Arch

pub data Os : Type 0 where
  linux freebsd macos windows other_os : Os

unfoldable pub framehop_supported : Os → Arch → Bool
framehop_supported linux x86_64 = true
framehop_supported freebsd x86_64 = true
framehop_supported macos x86_64 = true
framehop_supported windows x86_64 = true
framehop_supported linux aarch64 = true
framehop_supported freebsd aarch64 = true
framehop_supported macos aarch64 = true
framehop_supported _ _ = false
