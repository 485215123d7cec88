-- ===== src/Base/Http/Strict.antt =====
-- A concrete `http` crate for tests: of headers it accepts what the real one documents, and no more.
use mathlib.Core.Bool.{not, ◌&&◌}
use mathlib.Core.Option.{none, some}
use native.Mathlib.Omega.{arith}
use text.Mathlib.Text.{◌==◌}
use app_gate.Base.Tests.{ltb, leb, if◌then◌else◌}
use app_gate.Base.Result.{ok}
use app_gate.Base.Http.{HttpCrate, HttpLaws, is_token, is_visible}

abbrev pub strict : HttpCrate
strict = record {
  header_ok = λ name value. is_token name && is_visible value;
  to_str = λ value. is_visible value;
  from_bytes = λ m. ok m;
  uri_ok = λ u. not (u == "");
  from_u16 = λ n. if leb 100 n && ltb n 1000 then some n else none;
}

pub strict-HttpLaws : HttpLaws strict
strict-HttpLaws = record {
  plain_header = λ name value t v. ground arith;
  readable_header = λ name value t v. ground arith;
  method_text = λ m n h. cc;
  valid_status = λ n low high. ground arith;
}
