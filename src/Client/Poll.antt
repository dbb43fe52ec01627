-- ===== src/Client/Poll.antt =====
-- cpp_exec/exec_bridge.cpp: `poll_order_status`, which asks for an order until it is done.
pub mod Costs
pub mod Bounds
pub mod Filled
use Prim.Native.String.{find as find_text, len}
use hl_cli.Prelude.{
  ℕ, zero, suc, Bool, true, false, not, ◌&&◌, ◌||◌, List, [], ◌∷◌, String, str_eq, if◌then◌else◌,
  leb, ℤ, pos, ◌-ℤ◌, ltb_ℤ,
}
use hl_cli.Double.{Double}
use hl_cli.Json.{Json, value_string}
use hl_cli.Numbers.{json_get_int64}
use hl_cli.Host.{Host}
use hl_cli.Machine.{M, ret, thrown, stuck, pure, gets, modify, skip, try_catch, ◌>>=◌, ◌>>◌}
use hl_cli.Rate.{RestClass}
use hl_cli.Client.{Client, PollTask, within, ask_host, missing_order_ids}
use hl_cli.Client.OpenOrders.{signed, order_params}
use hl_cli.Client.Send.{or_throw}
use hl_cli.Client.Fills.{process_fill_response}

-- `s.find(t) != npos`
abbrev has_text : String → String → Bool
has_text s t = leb (find_text s t) (len s)

-- `v.count(s)`
unfoldable pub has_member : String → List String → Bool
has_member s [] = false
has_member s (t ∷ ts) = if str_eq t s then true else has_member s ts

-- The texts of an exception that tell that the order does not exist.
unfoldable pub tells_missing : String → Bool
tells_missing e =
    has_text e "\"http_status_code\":404"
    || has_text e "HTTP Error 404"
    || has_text e "\"code\":\"RESOURCE_NOT_FOUND\""
    || has_text e "Order not found"

-- 5 minutes, in milliseconds
abbrev max_order_age_ms : ℤ
max_order_age_ms = pos 300_000

module _ {D J W : Type 0} ⦃d : Double D⦄ (j : Json D J) (h : Host W) where
  -- The age of the order, looked at once: whether to stop, and whether it has been looked at.
  unfoldable pub check_age : J → Bool → M (Client D J W) (Bool × Bool)
  check_age reply checked =
      let created = json_get_int64 j h reply "createdAt" (pos 0) in
      if not checked && j.contains reply "createdAt"
      then (if ltb_ℤ (pos 0) created
          then (do
            now ← ask_host h.system_ms
            pure (ltb_ℤ max_order_age_ms (pos now -ℤ created), true))
          else pure (false, true))
      else pure (false, checked)

  -- The `try` block up to the status: the reply, its status, whether the order is too old, and
  -- whether the age has been looked at.
  unfoldable pub poll_query : PollTask D → Bool → M (Client D J W) (J × String × Bool × Bool)
  unfolding check_age
  poll_query t checked = do
    reply ←
        signed j h RestClass.order_query "GET" "/api/v1/order" "orderQuery"
          (order_params j h t.symbol t.order_id)
    status ← or_throw j h (value_string j reply "status" "")
    (stop, checked') ← check_age reply checked
    pure (reply, status, stop, checked')

  -- The rest of the block: whether the loop ends.
  unfoldable pub poll_status : PollTask D → J → String → Bool → M (Client D J W) Bool
  poll_status t reply status stop =
      if stop
      then pure true
      else if str_eq status "FILLED"
      then (do process_fill_response j h reply t.original t.model_id; pure true)
      else pure (str_eq status "CANCELED")

  -- The `catch` block.
  unfoldable pub poll_error : PollTask D → String → M (Client D J W) Bool
  unfolding tells_missing has_member
  poll_error t e =
      if tells_missing e
      then (do
        within missing_order_ids (
            modify λ c. record c {
              recently_missing_order_ids =
                  if has_member t.order_id c.recently_missing_order_ids
                  then c.recently_missing_order_ids
                  else t.order_id ∷ c.recently_missing_order_ids;
            })
        pure true)
      else pure false

  -- One round: whether the loop ends, and whether the age has been looked at. An exception leaves
  -- the latter as it was when it was thrown.
  unfoldable pub poll_once : PollTask D → Bool → M (Client D J W) (Bool × Bool)
  poll_once t checked c = elim (poll_query t checked c) [
    | stuck ↦ stuck
    | thrown e c' ↦ (do done ← poll_error t e; pure (done, checked)) c'
    | ret (reply, status, stop, checked') c' ↦
        (do
          done ← try_catch (poll_status t reply status stop) (poll_error t)
          pure (done, checked'))
          c'
  ]

  -- The loop: at most `left` queries.
  unfoldable pub poll_loop : (left : ℕ) → PollTask D → Bool → M (Client D J W) (Unit {0})
  poll_loop zero t checked c = ret tt c
  poll_loop (suc left) t checked c =
      (do
        (done, checked') ← poll_once t checked
        (elim done [ true ↦ skip | false ↦ poll_loop left t checked' ]))
        c

  unfoldable pub poll_order_status : PollTask D → M (Client D J W) (Unit {0})
  poll_order_status t = do
    missing ←
        within missing_order_ids (gets λ c. has_member t.order_id c.recently_missing_order_ids)
    (if missing then skip else poll_loop 3 t false)
