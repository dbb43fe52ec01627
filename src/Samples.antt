-- ===== src/Samples.antt =====
-- Concrete data for the tests: JSON values, a host with scripted replies, and a client.
pub mod Laws
use hl_cli.Prelude.{
  Option, ℕ, ◌+◌, Bool, true, false, none, some, List, [], ◌∷◌, if◌then◌else◌, String, str_eq, ℤ,
  pos,
}
use hl_cli.Double.Fixed.{Fixed, fixed_double}
use hl_cli.Json.{Json}
use hl_cli.Host.{Host, HttpRequest, CurlResult, failed, response}
use hl_cli.Rate.{initial_bucket}
use hl_cli.Numbers.{and_then}
use hl_cli.Rest.{Net}
use hl_cli.Data.{
  Order, OrderStatus, buy, OrderType, RestingOrder, RestingOrderSide, ActivePosition,
  TradeEventType,
}
use hl_cli.Client.{Client}

-- An object is a chain of members, an array a chain of elements.
pub data Value : Type 0 where
  null_value empty_object empty_array : Value
  member : String → Value → Value → Value
  element : Value → Value → Value
  text : String → Value
  number : ℤ → Value
  real : Fixed → Value
  boolean : Bool → Value

abbrev pub put_member : String → Value → Value → Value
put_member k v (member i w o) = if str_eq i k then member i v o else member i w (put_member k v o)
put_member k v _ = member k v empty_object

abbrev pub erase_member : String → Value → Value
erase_member k (member i w o) =
    if str_eq i k then erase_member k o else member i w (erase_member k o)
erase_member k _ = empty_object

abbrev pub has_member : Value → String → Bool
has_member (member i w o) k = if str_eq i k then true else has_member o k
has_member _ k = false

abbrev pub member_of : Value → String → Value
member_of (member i w o) k = if str_eq i k then w else member_of o k
member_of _ k = null_value

abbrev pub items_of : Value → List (String × Value)
items_of (member i w o) = (i, w) ∷ items_of o
items_of _ = []

abbrev elements_of : Value → List Value
elements_of (element v o) = v ∷ elements_of o
elements_of _ = []

-- The texts of an array of texts.
abbrev texts_of : Value → Option (List String)
texts_of empty_array = some []
texts_of (element (text s) o) = and_then (texts_of o) λ l. some (s ∷ l)
texts_of _ = none

abbrev size_of : Value → ℕ
size_of (member i w o) = 1 + size_of o
size_of (element v o) = 1 + size_of o
size_of _ = 0

abbrev pub is_object_value : Value → Bool
is_object_value empty_object = true
is_object_value (member _ _ _) = true
is_object_value _ = false

abbrev is_array_value : Value → Bool
is_array_value empty_array = true
is_array_value (element _ _) = true
is_array_value _ = false

abbrev array_of : List String → Value
array_of [] = empty_array
array_of (s ∷ ss) = element (text s) (array_of ss)

abbrev pub array_value : List Value → Value
array_value [] = empty_array
array_value (v ∷ vs) = element v (array_value vs)

-- Three bodies can be read; a value is written as its kind.
instance abbrev pub value_json : Json Fixed Value
value_json = record {
  null = null_value;
  object = empty_object;
  parse = λ s.
      if str_eq s "filled"
      then some (member "status" (text "FILLED") empty_object)
      else if str_eq s "open"
      then some (member "status" (text "NEW") empty_object)
      else if str_eq s "placed"
      then some (member "orderId" (text "o9") empty_object)
      else none;
  dump = λ v. "value";
  dump_ascii = λ v. "value";
  dump_pretty = λ v. "value";
  is_null = λ v. elim v [ null_value ↦ true | _ ↦ false ];
  is_object = is_object_value;
  is_array = is_array_value;
  is_string = λ v. elim v [ text _ ↦ true | _ ↦ false ];
  is_number = λ v. elim v [ number _ ↦ true | real _ ↦ true | _ ↦ false ];
  is_number_integer = λ v. elim v [ number _ ↦ true | _ ↦ false ];
  is_boolean = λ v. elim v [ boolean _ ↦ true | _ ↦ false ];
  contains = has_member;
  field = member_of;
  put = put_member;
  erase = erase_member;
  items = items_of;
  elements = elements_of;
  of_string = text;
  of_bool = boolean;
  of_double = real;
  of_ℤ = number;
  of_strings = array_of;
  array = array_value;
  get_string = λ v. elim v [ text s ↦ some s | _ ↦ none ];
  get_bool = λ v. elim v [ boolean b ↦ some b | _ ↦ none ];
  get_double = λ v. elim v [ real x ↦ some x | _ ↦ none ];
  get_int64 = λ v. elim v [ number z ↦ some z | _ ↦ none ];
  get_strings = texts_of;
  size = size_of;
}

-- The replies to the signed requests, and the time in milliseconds.
pub record World : Type 0 where
  pub replies : List CurlResult
  pub clock : ℕ

-- The time server does not answer; a reply that is not scripted is a 429.
abbrev answer : HttpRequest → World → CurlResult × World
answer r w = elim r.headers [
  | [] ↦ (failed "no answer", w)
  | _ ∷ _ ↦ elim w.replies [ [] ↦ (response 429 "", w) | x ∷ xs ↦ (x, record w { replies = xs }) ]
]

abbrev pub scripted : Host World
scripted = record {
  system_ms = λ w. (w.clock, w);
  steady_ns = λ w. (w.clock, w);
  draw = λ low high w. (low, w);
  jitter = λ w. (1500, w);
  perform = answer;
  is_connected = λ w. true;
  sleep_us = λ us w. w;
  sign = λ key message. "signature";
  decimal = λ z. "integer";
  stoll = λ s. none;
  stoull = λ s. none;
  order_status_text = λ s. "status";
}

-- A host whose exchange refuses every request for its rate.
abbrev pub busy_host : Host World
busy_host = record scripted { perform = λ r w. (response 429 "", w) }

abbrev pub world_of : List CurlResult → World
world_of replies = record { replies = replies; clock = 100_000_000_000 }

abbrev pub net_of : List CurlResult → Net World
net_of replies = record {
  cached_server_time = pos 0;
  last_fetch = 0;
  bucket = initial_bucket;
  backoff_events = 0;
  retry_elapsed_ms_sum = 0;
  requests = [];
  sent = 0;
  world = world_of replies;
}

abbrev pub price_of : ℕ → Fixed
price_of n = fixed_double.lit n 0

-- A long position of two units, entered at 100, that the order "exit" closes.
abbrev pub sample_position : ActivePosition Fixed
sample_position = record {
  model_id = "m";
  trading_symbol = "SOL";
  side = buy;
  entry_price = price_of 100;
  stop_loss_price = none;
  quantity = price_of 2;
  quantity_filled_so_far = price_of 0;
  entry_timestamp = 0;
  order_ids = [];
  stop_order_ids = [];
  closing_order_id = some "exit";
  closure_type = TradeEventType.position_closed_manual;
  pending_closure = true;
}

abbrev pub sample_order : String → OrderStatus → ℕ → ℕ → Order Fixed
sample_order id status price executed = record {
  id = id;
  symbol = "SOL";
  status = status;
  client_order_id = "m";
  side = buy;
  type = OrderType.limit;
  quantity = price_of 2;
  price = price_of price;
  executed_quantity = price_of executed;
  timestamp = "";
}

abbrev pub sample_resting : String → ℕ → RestingOrder Fixed
sample_resting id placed_at = record {
  order_id = id;
  symbol = "SOL";
  side = RestingOrderSide.bid;
  price = price_of 100;
  qty = price_of 2;
  placed_at = placed_at;
  client_id = "m";
}

abbrev pub sample_client : List CurlResult → Client Fixed Value World
sample_client replies = record {
  trading_symbol = "SOL";
  api_key = "key";
  base64_private_key = "secret";
  has_client = true;
  tick_size = price_of 1;
  qty_step = price_of 1;
  min_qty = price_of 1;
  best_bid = price_of 99;
  best_ask = price_of 101;
  bid_qty = price_of 1;
  ask_qty = price_of 1;
  last_update = 0;
  running = true;
  trade_id_map = ("m", "trade") ∷ [];
  recently_missing_order_ids = [];
  open_positions = [];
  active_positions = ("m", sample_position) ∷ [];
  open_orders = ("o1", sample_resting "o1" 1) ∷ ("o2", sample_resting "o2" 99_999_999_999) ∷ [];
  order_cache = [];
  ws_orders_initialized = false;
  ws_connected = false;
  ws_orders_subscribed = false;
  ws_connection_healthy = false;
  bootstrap_in_progress = false;
  trade_event_log = some [];
  positions_file = none;
  polls = [];
  held = λ l. false;
  net = net_of replies;
}
