-- ===== src/Validation/Collector.antt =====
-- validation/builder.go: an error collector.
use Prim.Native.Char.{Char}
use Prim.Native.String.{◌++◌ as append}
use jack.Base.{
  String, ◌==◌, ◌≡◌, refl, Bool, false, not, ◌&&◌, none, some, List, [], ◌∷◌, ◌++◌, is_some, arith,
  if◌then◌else◌,
}
use jack.Base.Text.{join}
use jack.Validation.{Error}

pub record ErrorCollector : Type 0 where
  pub errs : List String
  pub ctx : String

abbrev pub new_collector : ErrorCollector
new_collector = record { errs = []; ctx = "" }

abbrev pub with_context : String → ErrorCollector → ErrorCollector
with_context ctx ec = record ec { ctx = ctx }

-- `"%s: %w"`
abbrev prefixed : String → String → String
prefixed a b = append a (append ": " b)

unfoldable pub check : Error → ErrorCollector → ErrorCollector
check none ec = ec
check (some e) ec =
    let message = if ec.ctx == "" then e else prefixed ec.ctx e in
    record ec { errs = ec.errs ++ message ∷ [] }

unfoldable pub check_msg : Error → String → ErrorCollector → ErrorCollector
check_msg none message ec = ec
check_msg (some e) message ec =
    let whole = if ec.ctx == "" then prefixed message e else prefixed ec.ctx (prefixed message e) in
    record ec { errs = ec.errs ++ whole ∷ [] }

abbrev newline : Char
newline = "\n"

abbrev joined : List String → Error
joined [] = none
joined errs = some (join newline errs)

-- `errors.Join`
unfoldable pub error : ErrorCollector → Error
error ec = joined ec.errs

-- No error has been collected.
abbrev pub is_clean : ErrorCollector → Bool
is_clean ec = not (is_some (error ec))

abbrev passes : Error → Bool
passes e = not (is_some e)

dirty : (xs : List String) (x : String) → not (is_some (joined (xs ++ x ∷ []))) ≡ false
dirty [] x = refl
dirty (y ∷ xs) x = refl

pub is_clean-check :
    (e : Error) (ec : ErrorCollector) → is_clean (check e ec) ≡ (is_clean ec && passes e)
unfolding check error
is_clean-check none ec = ground arith
is_clean-check (some e) ec = rw dirty (ground arith)

pub is_clean-check_msg :
    (e : Error) (message : String) (ec : ErrorCollector)
    → is_clean (check_msg e message ec) ≡ (is_clean ec && passes e)
unfolding check_msg error
is_clean-check_msg none message ec = ground arith
is_clean-check_msg (some e) message ec = rw dirty (ground arith)

pub ruleset collector_laws = (is_clean-check, is_clean-check_msg)
