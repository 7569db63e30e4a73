-- ===== src/Core/Platform.antt =====
-- crates/core/src/platform.rs: the errors of a platform, and the app that opened a URL.
use link_pilot.Prelude.{String, Option}
use link_pilot.Prelude.Int.{ℤ}
use link_pilot.Core.Files.{FilePath, IoError}

pub data PlatformError : Type 0 where
  not_supported : PlatformError
  io : IoError → PlatformError
  other : String → PlatformError

pub record OpenerApp : Type 0 where
  pub name : String
  pub bundle_id : Option String
  pub executable : Option FilePath
  pub pid : Option ℤ
