-- ===== src/RustGateway/Cache.antt =====
-- rust-gateway/src/cache.rs. The cache of the crate `moka` is a parameter; the time is an argument.
pub mod Origin
pub mod Latest
mod Tests
use mathlib.Core.Option
use app_gate.Base.{
  ℕ, ◌+◌, String, Bool, true, false, Option, none, some, List, [], ◌∷◌, length, if◌then◌else◌,
}
use app_gate.Base.Http.{Bytes, Headers, bytes_of}
use app_gate.Base.Moka.{Moka}
use app_gate.Base.Result.{unwrap_or}
use app_gate.Base.Words.{u32}
use app_gate.RustGateway.Config.{GatewayConfig}

pub record CachedResponse : Type 0 where
  pub status : ℕ
  pub headers : Headers
  pub body : Bytes

pub record ResponseCache (M : Type 0) : Type 0 where
  pub inner : Option M
  pub enabled : Bool

unfoldable pub header_bytes : Headers → ℕ
header_bytes [] = 0
header_bytes ((k, v) ∷ rest) = length (bytes_of k) + length (bytes_of v) + header_bytes rest

unfoldable pub weigher : String → CachedResponse → ℕ
weigher key value = u32 (length value.body + header_bytes value.headers)

module _ {M : Type 0} (moka : Moka M CachedResponse) where
  unfoldable pub new : GatewayConfig → ResponseCache M
  new config =
      let ttl = unwrap_or 60 config.cache.ttl_secs in
      let max_size = unwrap_or 10000 config.cache.max_size in
      record {
        inner = if config.cache.enabled then some (moka.build ttl max_size weigher) else none;
        enabled = config.cache.enabled;
      }

  abbrev get_inner : ℕ → String → Option M → Option CachedResponse × Option M
  get_inner now key none = (none, none)
  get_inner now key (some m) = let (answer, next) = moka.get now key m in (answer, some next)

  -- With the cache that it leaves.
  unfoldable pub get : ℕ → String → ResponseCache M → Option CachedResponse × ResponseCache M
  get now key s =
      let (answer, inner) = get_inner now key s.inner in (answer, record s { inner = inner })

  -- `if let Some(cache) = &self.inner { … }`
  abbrev on_inner : (M → M) → ResponseCache M → ResponseCache M
  on_inner change s = record s { inner = Option.map change s.inner }

  unfoldable pub set : ℕ → String → CachedResponse → ResponseCache M → ResponseCache M
  set now key response s = on_inner (moka.insert now key response) s

  unfoldable pub invalidate : String → ResponseCache M → ResponseCache M
  invalidate key s = on_inner (moka.invalidate key) s

  unfoldable pub clear : ResponseCache M → ResponseCache M
  clear s = on_inner moka.invalidate_all s

  abbrev pub entry_count : ResponseCache M → ℕ
  entry_count s = elim s.inner [ some cache ↦ moka.entry_count cache | none ↦ 0 ]
