-- ===== src/Config/Files.antt =====
-- `LoadProperties` and `LoadPropertiesByFS` of config/property.go: the file of an environment, or the
-- one of the default environment where the first does not exist. A file system `F` is a parameter,
-- by what `Open` of a name answers.
use go_infra.Prelude.{Option, none, some, List, ◌≡◌, refl}
use go_infra.Prelude.Text.{Text, codes}
use go_infra.Prelude.Dict.{Dict, lookup}
use go_infra.Config.Property.{PropertyStore, PropertyRuntime, load}

-- A file that was opened is the lines of its scanner, and the error that ends the scan, if any.
pub data Opened : Type 0 where
  opened : List Text → Option Text → Opened
  not_exist : Text → Opened
  open_failed : Text → Opened

-- The errors of the two functions.
pub data LoadError : Type 0 where
  invalid_environment : Text → LoadError
  no_default_fs : LoadError
  file_not_found : Text → Text → LoadError
  scan_failed : Text → LoadError

abbrev pub default_property_env : Text
default_property_env = codes "default"

-- `p.Store.Load(file)`
abbrev loaded_by :
    PropertyRuntime → PropertyStore × Option Text → PropertyRuntime × Option LoadError
loaded_by p (s, none) = (record p { store = s }, none)
loaded_by p (s, some e) = (record p { store = s }, some (scan_failed e))

abbrev load_opened : Text → PropertyRuntime → Opened → PropertyRuntime × Option LoadError
load_opened name p (opened lines failure) = loaded_by p (load lines failure p.store)
load_opened name p (not_exist e) = (p, some (file_not_found name e))
load_opened name p (open_failed e) = (p, some (file_not_found name e))

module _ {F : Type 0} (open_file : F → Text → Opened) where
  -- The file of the environment, or that of the default one.
  unfoldable pub open_or_default : F → Text → F → Opened
  open_or_default properties name default_fs = elim (open_file properties name) [
    | opened lines failure ↦ opened lines failure
    | not_exist e ↦ open_file default_fs name
    | open_failed e ↦ open_failed e
  ]

  unfoldable pub load_properties_by_fs :
      F → Text → F → PropertyRuntime → PropertyRuntime × Option LoadError
  load_properties_by_fs properties name default_fs p =
      load_opened name p (open_or_default properties name default_fs)

  unfoldable pub load_properties :
      Dict F → Text → Text → PropertyRuntime → PropertyRuntime × Option LoadError
  load_properties env_fs env name p = elim (lookup env env_fs) [
    | none ↦ (p, some (invalid_environment env))
    | some files ↦ elim (lookup default_property_env env_fs) [
      | none ↦ (p, some no_default_fs)
      | some default_fs ↦ load_properties_by_fs files name default_fs p
    ]
  ]

  -- A file that only the default environment has is read from there; what the runtime has then is
  -- what `Load` makes of its lines, and the keys that were read are the same.
  pub load_properties-default :
      (env_fs : Dict F) (env name cause : Text) (files default_fs : F) (lines : List Text)
      (p : PropertyRuntime)
      → lookup env env_fs ≡ some files
      → lookup default_property_env env_fs ≡ some default_fs
      → open_file files name ≡ not_exist cause
      → open_file default_fs name ≡ opened lines none
      → load_properties env_fs env name p ≡ (record p { store = (load lines none p.store).0 }, none)
  unfolding load_properties load_properties_by_fs open_or_default load
  load_properties-default env_fs env name cause files default_fs lines p e d absent there =
      rw (e, load_properties, d, absent, open_or_default, there) refl
