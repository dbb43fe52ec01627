-- ===== src/Startup/Symbol.antt =====
-- cpp_exec/main.cpp: the symbol that is left of what the environment says.
use Prim.Native.Char.{Char, code}
use text.Mathlib.TextLemmas.{nil-append, cons-append}
use hl_cli.Prelude.{
  ◌≡◌, refl, sym, ap, ◌∙◌, Bool, true, false, not, ◌||◌, Option, none, some, inr, String,
  str_append, ◌==◌, arith,
}
use hl_cli.Double.{Double}
use hl_cli.Rest.{Net}
use hl_cli.Client.Start.{initial_client}
use hl_cli.Startup.{
  is_space, is_hash, is_quote, is_nil_text, before_hash, ltrim, rtrim, strip_last, unquote,
  clean_symbol, getenv_required, read_settings, start_client,
}

-- Every character passes the test.
abbrev pub AllChars : (Char → Bool) → String → Type 0
AllChars test String.[] = Unit
AllChars test (String.◌∷◌ c s) = (test c ≡ true) × AllChars test s

-- A character that is neither a space nor a quote nor '#'.
abbrev pub is_plain : Char → Bool
is_plain c = not (is_space c || is_hash c || is_quote c)

abbrev no_space : Char → Bool
no_space c = not (is_space c)

abbrev no_hash : Char → Bool
no_hash c = not (is_hash c)

AllChars-weaken :
    (f g : Char → Bool)
    → ((c : Char) → f c ≡ true → g c ≡ true)
    → (s : String) → AllChars f s
    → AllChars g s
AllChars-weaken f g weaker String.[] all = tt
AllChars-weaken f g weaker (String.◌∷◌ c s) (h, all) =
    (weaker c h, AllChars-weaken f g weaker s all)

AllChars-append :
    (f : Char → Bool) (s t : String) → AllChars f s → AllChars f t → AllChars f (str_append s t)
AllChars-append f String.[] t all more = rw (nil-append t) more
AllChars-append f (String.◌∷◌ c s) t (h, all) more =
    rw (cons-append c s t) (h, AllChars-append f s t all more)

is_space-no_hash : (c : Char) → is_space c ≡ true → no_hash c ≡ true
is_space-no_hash c h = ground arith

is_plain-no_hash : (c : Char) → is_plain c ≡ true → no_hash c ≡ true
is_plain-no_hash c h = ground arith

is_plain-no_space : (c : Char) → is_plain c ≡ true → no_space c ≡ true
is_plain-no_space c h = ground arith

is_quote-no_hash : (c : Char) → is_quote c ≡ true → no_hash c ≡ true
is_quote-no_hash c h = ground arith

is_quote-no_space : (c : Char) → is_quote c ≡ true → no_space c ≡ true
is_quote-no_space c h = ground arith

-- The comment that follows '#', if there is one.
abbrev pub comment_text : Option String → String
comment_text none = ""
comment_text (some t) = String.◌∷◌ "#" t

-- The symbol, with the quotes around it, if there are any.
abbrev pub quoted : Option Char → String → String
quoted none s = s
quoted (some q) s = String.◌∷◌ q (str_append s (String.◌∷◌ q ""))

abbrev pub AreQuotes : Option Char → Type 0
AreQuotes none = Unit
AreQuotes (some q) = is_quote q ≡ true

before_hash-append :
    (s : String) (comment : Option String)
    → AllChars no_hash s
    → before_hash (str_append s (comment_text comment)) ≡ s
unfolding before_hash
before_hash-append String.[] none all = rw (nil-append "") refl
before_hash-append String.[] (some t) all = rw (nil-append (String.◌∷◌ "#" t)) refl
before_hash-append (String.◌∷◌ c s) comment (h, all) =
    let kept : is_hash c ≡ false = ground arith in
    rw (cons-append c s (comment_text comment), kept, before_hash-append s comment all) refl

ltrim-append : (s t : String) → AllChars is_space s → ltrim (str_append s t) ≡ ltrim t
unfolding ltrim
ltrim-append String.[] t all = rw (nil-append t) refl
ltrim-append (String.◌∷◌ c s) t (h, all) = rw (cons-append c s t, h) (ltrim-append s t all)

ltrim-blank : (s : String) → AllChars is_space s → ltrim s ≡ ""
unfolding ltrim
ltrim-blank String.[] all = refl
ltrim-blank (String.◌∷◌ c s) (h, all) = rw h (ltrim-blank s all)

rtrim-blank : (s : String) → AllChars is_space s → rtrim s ≡ ""
unfolding rtrim
rtrim-blank String.[] all = refl
rtrim-blank (String.◌∷◌ c s) (h, all) = rw (h, rtrim-blank s all) refl

rtrim-append :
    (s t : String) → AllChars no_space s → AllChars is_space t → rtrim (str_append s t) ≡ s
unfolding rtrim
rtrim-append String.[] t all blank = rw (nil-append t) (rtrim-blank t blank)
rtrim-append (String.◌∷◌ c s) t (h, all) blank =
    let kept : is_space c ≡ false = ground arith in
    rw (cons-append c s t, kept, rtrim-append s t all blank) refl

trim-append :
    (s t : String) → AllChars no_space s → AllChars is_space t → rtrim (ltrim (str_append s t)) ≡ s
unfolding ltrim
trim-append String.[] t all blank = rw (nil-append t, ltrim-blank t blank) (rtrim-blank "" tt)
trim-append (String.◌∷◌ c s) t (h, all) blank =
    let kept : is_space c ≡ false = ground arith in
    rw (cons-append c s t, kept)
      (sym (ap rtrim (cons-append c s t)) ∙ rtrim-append (String.◌∷◌ c s) t (h, all) blank)

is_nil_text-append : (q : Char) (s : String) → is_nil_text (str_append s (String.◌∷◌ q "")) ≡ false
is_nil_text-append q String.[] = rw (nil-append (String.◌∷◌ q "")) refl
is_nil_text-append q (String.◌∷◌ c s) = rw (cons-append c s (String.◌∷◌ q "")) refl

strip_last-append : (q : Char) (s : String) → strip_last q (str_append s (String.◌∷◌ q "")) ≡ some s
unfolding strip_last
strip_last-append q String.[] =
    let same : (code q == code q) ≡ true = ground arith in
    rw (nil-append (String.◌∷◌ q ""), same) refl
strip_last-append q (String.◌∷◌ c s) =
    rw (cons-append c s (String.◌∷◌ q ""), is_nil_text-append q s, strip_last-append q s) refl

unquote-quoted :
    (q : Option Char) (s : String) → AreQuotes q → AllChars is_plain s → unquote (quoted q s) ≡ s
unfolding unquote
unquote-quoted none String.[] quotes plain = refl
unquote-quoted none (String.◌∷◌ c s) quotes (h, plain) =
    let bare : is_quote c ≡ false = ground arith in rw bare refl
unquote-quoted (some q) s quotes plain = rw (quotes, strip_last-append q s) refl

-- The quotes pass a test that they and the plain characters pass.
quoted-AllChars :
    (f : Char → Bool) (q : Option Char) (s : String)
    → ((c : Char) → is_plain c ≡ true → f c ≡ true)
    → ((c : Char) → is_quote c ≡ true → f c ≡ true)
    → AreQuotes q
    → AllChars is_plain s
    → AllChars f (quoted q s)
quoted-AllChars f none s plain_f quote_f quotes plain = AllChars-weaken is_plain f plain_f s plain
quoted-AllChars f (some q) s plain_f quote_f quotes plain = (
  quote_f q quotes,
  AllChars-append f s (String.◌∷◌ q "") (AllChars-weaken is_plain f plain_f s plain)
      (quote_f q quotes, tt),
)

-- How the environment may write a symbol: blanks before and after it, quotes, a comment.
abbrev pub written : String → Option Char → String → String → Option String → String
written before q s after comment =
    str_append (str_append before (str_append (quoted q s) after)) (comment_text comment)

pub clean_symbol-written :
    (before : String) (q : Option Char) (s after : String) (comment : Option String)
    → AllChars is_space before
    → AllChars is_space after
    → AreQuotes q
    → AllChars is_plain s
    → clean_symbol (written before q s after comment) ≡ s
unfolding clean_symbol
clean_symbol-written before q s after comment blank blank' quotes plain =
    let no_hashes =
      AllChars-append no_hash before (str_append (quoted q s) after)
        (AllChars-weaken is_space no_hash is_space-no_hash before blank)
        (AllChars-append no_hash (quoted q s) after
          (quoted-AllChars no_hash q s is_plain-no_hash is_quote-no_hash quotes plain)
          (AllChars-weaken is_space no_hash is_space-no_hash after blank')) in
    let no_spaces = quoted-AllChars no_space q s is_plain-no_space is_quote-no_space quotes plain in
    rw
      (
        before_hash-append (str_append before (str_append (quoted q s) after)) comment no_hashes,
        ltrim-append before (str_append (quoted q s) after) blank,
        trim-append (quoted q s) after no_spaces blank',
      )
      (unquote-quoted q s quotes plain)

getenv_required-set :
    (env : String → Option String) (key value : String)
    → env key ≡ some value
    → getenv_required env key ≡ inr value
unfolding getenv_required
getenv_required-set env key value set = rw (set, getenv_required) refl

-- The variables that `main` requires, with the symbol written in any of these ways.
abbrev pub HasVariables : (String → Option String) → String → String → String → Type 0
HasVariables env key secret raw =
    (env "BACKPACK_API_KEY" ≡ some key)
    × (env "BACKPACK_API_SECRET_B64" ≡ some secret)
    × (env "TRADING_SYMBOL" ≡ some raw)

module _ {D J W : Type 0} ⦃d : Double D⦄ where
  -- Whatever blanks, quotes and comment stand around the symbol in the environment, `main` makes the
  -- client for the symbol itself, with the keys of the environment, if all three variables are set,
  -- and the symbol has no blanks, quotes or '#' in it.
  pub start_client-written :
      (env : String → Option String) (log_opens : Bool) (net : Net W) (key secret before : String)
      (q : Option Char) (s after : String) (comment : Option String)
      → HasVariables env key secret (written before q s after comment)
      → AllChars is_space before
      → AllChars is_space after
      → AreQuotes q
      → AllChars is_plain s
      → start_client {D = D} {J = J} env log_opens net
        ≡ inr (initial_client key secret s log_opens net)
  unfolding start_client read_settings
  start_client-written env log_opens net key secret before q s after comment (k, x, t) blank blank'
        quotes plain =
      rw
        (
          getenv_required-set env "BACKPACK_API_KEY" key k,
          getenv_required-set env "BACKPACK_API_SECRET_B64" secret x,
          getenv_required-set env "TRADING_SYMBOL" (written before q s after comment) t,
          clean_symbol-written before q s after comment blank blank' quotes plain,
        )
        refl
