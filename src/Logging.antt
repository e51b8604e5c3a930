-- ===== src/Logging.antt =====
-- logging/logger.go, logging/hook.go: what is logged, as the calls on the logger. fmt.Sprintf("%v"),
-- runtime.Caller and path.Base are parameters.
pub mod Fields
use tiki.Base.{
  ℕ, ◌≡◌, List, [], ◌∷◌, ◌++◌, Option, none, some, Str, codes, ℤ, pos, if◌then◌else◌, Bool, true,
  false,
}
use tiki.Go.Maps.{Map, get, put}
use tiki.Go.Strconv.{itoa}

-- logType
pub data LogType : Type 0 where
  trace : LogType
  debug : LogType
  info : LogType
  warn : LogType
  error : LogType
  fatal : LogType

-- logrus.Entry, with a call of one of its methods.
pub record Logged (V : Type 0) : Type 0 where
  pub level : LogType
  pub msg : Str
  pub fields : Map V

-- The loop over the pairs: a value without a partner at the end is left out.
unfoldable pub fields_of : {V : Type 0} → (V → Str) → List V → Map V → Map V
fields_of show [] fs = fs
fields_of show (k ∷ []) fs = fs
fields_of show (k ∷ v ∷ rest) fs = fields_of show rest (put fs (show k) v)

-- withFields: the fields, and then the method that the type names.
unfoldable pub with_fields : {V : Type 0} → (V → Str) → LogType → Str → List V → Logged V
unfolding fields_of
with_fields show lt msg kvs = record { level = lt; msg = msg; fields = fields_of show kvs [] }

-- What runtime.Caller and FuncForPC find.
pub record Caller : Type 0 where
  pub file : Str
  pub line : ℕ
  pub function : Str

-- `fmt.Sprintf("%s:%v:%s", ...)`
unfoldable pub source_of : (Str → Str) → Caller → Str
source_of base c = base c.file ++ codes ":" ++ itoa c.line ++ codes ":" ++ base c.function

-- Fire of the ContextHook, where `text` makes a value of a string.
unfoldable pub fire : {V : Type 0} → (Str → V) → (Str → Str) → Option Caller → Logged V → Logged V
unfolding source_of
fire text base none e = e
fire text base (some c) e = record e {
  fields = put e.fields (codes "source") (text (source_of base c));
}
