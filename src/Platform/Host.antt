-- ===== src/Platform/Host.antt =====
-- platform/platform.hpp: the platform that the program is compiled for.
use sys_scope.Base.{Bool, true, false, Text, codes}

-- The branches of the preprocessor.
pub data Host : Type 0 where
  linux windows macos posix : Host

unfoldable pub is_linux_platform : Host → Bool
is_linux_platform linux = true
is_linux_platform windows = false
is_linux_platform macos = false
is_linux_platform posix = false

unfoldable pub get_platform_name : Host → Text
get_platform_name linux = codes "Linux"
get_platform_name windows = codes "Windows (Host)"
get_platform_name macos = codes "macOS"
get_platform_name posix = codes "Unknown POSIX Target"
