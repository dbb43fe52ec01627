-- ===== src/Predictor.antt =====
-- cpp_exec/low_latency_predictor.cpp: `LowLatencyPredictor`, whose thread takes market data out of a
-- ring and gives their features to the model. `process_prediction` is empty in the code. The model's
-- file, the huge pages and the settings of the thread are not modelled.
pub mod Ordered
use hl_cli.Prelude.{ℕ, ◌≡◌, Bool, true, false, Option, none, some, List, [], ◌∷◌, ◌++◌}
use hl_cli.Ring.{Ring, empty_ring, try_enqueue, try_dequeue}

abbrev pub ring_buffer_size : ℕ
ring_buffer_size = 1024

pub record MarketData (D : Type 0) : Type 0 where
  pub timestamp : D
  pub features : List D
  pub bid_price : D
  pub ask_price : D
  pub bid_size : D
  pub ask_size : D

-- Where the inference thread stands: there is none, at the test of `running_`, at `try_dequeue`,
-- past it with an item, or past the loop.
pub data Pc (D : Type 0) : Type 0 where
  idle at_test dequeuing exited : Pc D
  predicting : MarketData D → Pc D

-- `features` is `features_`. `predicted` lists the rows that the model was given, `accepted` the
-- items that the ring took, both in order.
pub record Predictor (D : Type 0) : Type 0 where
  pub ring : Ring (MarketData D)
  pub running : Bool
  pub pc : Pc D
  pub features : List D
  pub predicted : List (List D)
  pub accepted : List (MarketData D)

module _ {D : Type 0} where
  unfoldable pub new_predictor : MarketData D → Predictor D
  new_predictor zeroed = record {
    ring = empty_ring zeroed;
    running = false;
    pc = idle;
    features = [];
    predicted = [];
    accepted = [];
  }

  abbrev pub take_up : Bool → MarketData D → List (MarketData D) → List (MarketData D)
  take_up true item items = items ++ item ∷ []
  take_up false item items = items

  abbrev pub pc_after : Option (MarketData D) → Pc D
  pc_after none = at_test
  pc_after (some item) = predicting item

  -- What another thread puts into the ring; a full ring refuses it.
  unfoldable pub offer : MarketData D → Predictor D → Predictor D
  offer item p =
      let (r, done) = try_enqueue ring_buffer_size item p.ring in
      record p { ring = r; accepted = take_up done item p.accepted }

  -- `try_dequeue` in the loop, and what follows: on an empty ring the loop goes on.
  unfoldable pub take_item : Predictor D → Predictor D
  take_item p =
      let (r, got) = try_dequeue ring_buffer_size p.ring in record p { ring = r; pc = pc_after got }

  -- The features are copied, and the model is given the copy.
  unfoldable pub predict : MarketData D → Predictor D → Predictor D
  predict item p = record p {
    features = item.features;
    predicted = p.predicted ++ item.features ∷ [];
    pc = at_test;
  }

  -- The calls of `start` and `stop`, the other thread and the loop, in any order.
  pub data Step (p : Predictor D) : Predictor D → Type 0 where
    start : p.pc ≡ idle → Step p (record p { running = true; pc = at_test })
    stop : Step p (record p { running = false })
    join : p.pc ≡ exited → Step p (record p { pc = idle })
    enqueue : (item : MarketData D) → Step p (offer item p)
    enter : p.pc ≡ at_test → p.running ≡ true → Step p (record p { pc = dequeuing })
    leave : p.pc ≡ at_test → p.running ≡ false → Step p (record p { pc = exited })
    dequeue : p.pc ≡ dequeuing → Step p (take_item p)
    infer : (item : MarketData D) → p.pc ≡ predicting item → Step p (predict item p)

  pub data Reach (zeroed : MarketData D) : Predictor D → Type 0 where
    here : Reach zeroed (new_predictor zeroed)
    next : {p q : Predictor D} → Reach zeroed p → Step p q → Reach zeroed q
