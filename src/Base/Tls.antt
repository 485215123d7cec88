-- ===== src/Base/Tls.antt =====
-- The file system and the third-party crates rustls and rustls-pemfile, as far as the loaders of
-- the TLS settings call them. A certificate and a key are their bytes; `C` is an acceptor.
use Prim.Native.String.{String}
use mathlib.Core.List.{List}
use mathlib.Core.Option.{Option}
use app_gate.Base.Http.{Bytes}
use app_gate.Base.Result.{Result}

pub record Rustls (C : Type 0) : Type 0 where
  -- `File::open` and the reads that follow it, and `read_to_string`.
  pub open_file : String → Result Bytes String
  pub read_to_string : String → Result String String
  pub certs : Bytes → Result (List Bytes) String
  -- All PKCS#8 keys, and the first key of any form.
  pub pkcs8_private_keys : Bytes → Result (List Bytes) String
  pub private_key : Bytes → Result (Option Bytes) String
  pub with_single_cert : List Bytes → Bytes → Result C String
