-- ===== src/GrpcServer/Tests.antt =====
-- The theorems on the gRPC server, at an auth function that refuses some contexts.
use tiki.Base.{
  ℕ, suc, true, false, List, [], ◌∷◌, none, some, codes, Result, ok, err, panic, ◌>>=◌, returned,
  exited, ◌==◌, if◌then◌else◌,
}
use tiki.GrpcServer.{Library, AuthConfig, ServerOption, new_server}

abbrev guarded : (ℕ → Result ℕ) → ℕ → Result ℕ
guarded h c = elim (h c) [ ok r ↦ ok r | err e ↦ err e | panic ↦ err (codes "panic") ]

abbrev in_order : List ((ℕ → Result ℕ) → ℕ → Result ℕ) → (ℕ → Result ℕ) → ℕ → Result ℕ
in_order [] h = h
in_order (i ∷ is) h = i (in_order is h)

-- Only one certificate is there.
abbrev pub library : Library
library = record {
  LogEntry = ℕ;
  Context = ℕ;
  Creds = ℕ;
  Reply = ℕ;
  new_entry = 0;
  load_creds = λ cert key. elim cert [ [] ↦ none | b ∷ bs ↦ some 1 ];
  ctxtags = λ h c. h (suc c);
  opentracing = λ h c. h c;
  prometheus = λ h c. h c;
  logrus = λ entry h c. h c;
  auth = λ f h c. f c >>= h;
  panic_error = codes "panic";
  recovery = guarded;
  validator = λ h c. h c;
  chain = in_order;
}

abbrev refuse_small : ℕ → Result ℕ
refuse_small c = if c == 1 then err (codes "refused") else ok c

abbrev no_tls : AuthConfig
no_tls = record { tls = false; cert_file = []; key_file = [] }

abbrev options : List (ServerOption library)
options = elim (new_server library none (some refuse_small) (some no_tls)) [
  | returned opts ↦ opts
  | exited n ↦ []
]

abbrev tls : AuthConfig
tls = record { tls = true; cert_file = []; key_file = [] }
