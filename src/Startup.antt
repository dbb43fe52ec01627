-- ===== src/Startup.antt =====
-- cpp_exec/main.cpp: how the program makes its settings of the environment (`env`: the value of a
-- variable, if it is set). The errors that are logged are the texts on the left.
pub mod Symbol
use Prim.Native.Char.{Char, code}
use hl_cli.Prelude.{
  Bool, true, false, ◌&&◌, ◌||◌, Option, none, some, ◌⊎◌, inl, inr, String, str_append, ◌==◌, leb,
  if◌then◌else◌,
}
use hl_cli.Double.{Double}
use hl_cli.Numbers.{or_default, and_then}
use hl_cli.Rest.{Net}
use hl_cli.Client.{Client}
use hl_cli.Client.Start.{initial_client}

-- `std::isspace` in the C locale.
abbrev pub is_space : Char → Bool
is_space c = (code c == 32) || (leb 9 (code c) && leb (code c) 13)

abbrev pub is_hash : Char → Bool
is_hash c = code c == 35

abbrev pub is_quote : Char → Bool
is_quote c = (code c == 34) || (code c == 39)

abbrev pub is_nil_text : String → Bool
is_nil_text String.[] = true
is_nil_text (String.◌∷◌ c s) = false

-- The text in front of the first '#'.
unfoldable pub before_hash : String → String
before_hash String.[] = ""
before_hash (String.◌∷◌ c s) =
    let rest = before_hash s in if is_hash c then "" else String.◌∷◌ c rest

unfoldable pub ltrim : String → String
ltrim String.[] = ""
ltrim (String.◌∷◌ c s) = let rest = ltrim s in if is_space c then rest else String.◌∷◌ c s

unfoldable pub rtrim : String → String
rtrim String.[] = ""
rtrim (String.◌∷◌ c s) =
    let rest = rtrim s in if is_space c && is_nil_text rest then "" else String.◌∷◌ c rest

-- The text less its last character, if that is `q`.
unfoldable pub strip_last : Char → String → Option String
strip_last q String.[] = none
strip_last q (String.◌∷◌ c s) =
    let rest = strip_last q s in
    if is_nil_text s
    then (if code q == code c then some "" else none)
    else and_then rest λ t. some (String.◌∷◌ c t)

-- The text less the quotes around it, if they are there and are the same.
unfoldable pub unquote : String → String
unquote String.[] = ""
unquote (String.◌∷◌ c s) =
    if is_quote c then or_default (String.◌∷◌ c s) (strip_last c s) else String.◌∷◌ c s

unfoldable pub clean_symbol : String → String
clean_symbol raw = unquote (rtrim (ltrim (before_hash raw)))

pub record Settings (D : Type 0) : Type 0 where
  pub api_key : String
  pub api_secret : String
  pub symbol : String
  pub max_drawdown : D

unfoldable pub getenv_required : (String → Option String) → String → String ⊎ String
getenv_required env key = elim (env key) [
  | none ↦ inl (str_append "Missing required environment variable: " key)
  | some value ↦ inr value
]

-- What follows a setting that is there.
abbrev pub and_set : {A B : Type 0} → String ⊎ A → (A → String ⊎ B) → String ⊎ B
and_set (inl error) f = inl error
and_set (inr value) f = f value

module _ {D : Type 0} ⦃d : Double D⦄ where
  unfoldable pub max_drawdown_of : (String → Option String) → D
  max_drawdown_of env = or_default (d.lit 2 2) (and_then (env "MAX_DAILY_DRAWDOWN_PCT") d.stod)

  unfoldable pub read_settings : (String → Option String) → String ⊎ Settings D
  read_settings env = and_set (getenv_required env "BACKPACK_API_KEY") λ key.
      and_set (getenv_required env "BACKPACK_API_SECRET_B64") λ secret.
        and_set (getenv_required env "TRADING_SYMBOL") λ raw. inr (record {
          api_key = key;
          api_secret = secret;
          symbol = clean_symbol raw;
          max_drawdown = max_drawdown_of env;
        })

module _ {D J W : Type 0} ⦃d : Double D⦄ where
  -- `main` up to the client that it makes.
  unfoldable pub start_client : (String → Option String) → Bool → Net W → String ⊎ Client D J W
  start_client env log_opens net =
      and_set (read_settings {D = D} env)
        λ s. inr (initial_client s.api_key s.api_secret s.symbol log_opens net)
