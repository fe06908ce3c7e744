-- ===== src/Redis.antt =====
-- redis/component.go: the settings of the component for Redis, and the life of its client. The library
-- is a parameter, and `none` is a panic.
pub mod Load
use go_infra.Prelude.{
  Bool, true, false, ℕ, Option, none, some, List, [], ◌∷◌, ◌++◌, if◌then◌else◌, and_then,
}
use go_infra.Prelude.Text.{Text, codes, is_empty}
use go_infra.Prelude.Int.{ℤ}
use go_infra.Config.Strconv.{atoi}
use go_infra.Config.Property.{PropertyRuntime, required_property}
use go_infra.Config.Loading.{Loading, load_text, load_parsed}

-- A client of the library is a number.
pub record RedisComponent : Type 0 where
  pub client : Option ℕ
  pub addr : Text
  pub db : ℤ
  pub password : Text

unfoldable pub set_addr : Text → Loading RedisComponent → Loading RedisComponent
set_addr addr l = record l {
  component = record l.component { addr = addr };
  host_uris = l.host_uris ++ addr ∷ [];
}

abbrev pub set_db : ℤ → RedisComponent → RedisComponent
set_db db c = record c { db = db }

abbrev pub set_password : Text → RedisComponent → RedisComponent
set_password password c = record c { password = password }

abbrev pub load_password : Text → Loading RedisComponent → Option (Loading RedisComponent)
load_password prefix l = some (load_text (prefix ++ codes ".password") set_password l)

load_addr :
    Text → Loading RedisComponent → PropertyRuntime × Option Text → Option (Loading RedisComponent)
unfolding set_addr
load_addr prefix l (p, none) = none
load_addr prefix l (p, some addr) =
    and_then
      (load_parsed atoi (prefix ++ codes ".db") set_db (set_addr addr (record l { property = p })))
      (load_password prefix)

unfoldable pub load_from_prefix : Text → Loading RedisComponent → Option (Loading RedisComponent)
unfolding load_addr
load_from_prefix prefix l =
    if is_empty prefix
    then none
    else load_addr prefix l (required_property (prefix ++ codes ".addr") l.property)

-- The library: `New` with an address, a database and a password, and `Close`.
pub record RedisLib (W : Type 0) : Type 0 where
  pub new_client : Text → ℤ → Text → W → ℕ × W
  pub close_client : ℕ → W → W × Option Text

module _ {W : Type 0} (lib : RedisLib W) where
  -- `EnsureClient`, with the client that the component then has.
  unfoldable pub ensure_client : RedisComponent → W → Option (RedisComponent × ℕ × W)
  ensure_client c w = elim c.client [
    | some client ↦ some (c, client, w)
    | none ↦
        if is_empty c.addr
        then none
        else let (client, w') = lib.new_client c.addr c.db c.password w in
          some (record c { client = some client }, client, w')
  ]

  unfoldable pub close : RedisComponent → W → RedisComponent × W × Option Text
  close c w = elim c.client [
    | none ↦ (c, w, none)
    | some client ↦ let (w', e) = lib.close_client client w in (record c { client = none }, w', e)
  ]
