-- ===== src/Polymarket/TradeExecutor/Outcomes.antt =====
-- What a trade of tradeExecutor.ts leaves behind, however the chain and the CLOB answer.
use team_index.Base.{
  ℕ, ◌≡◌, ◌∙◌, refl, Bool, List, [], ◌∷◌, Option, none, some, true, false, ◌&&◌, Result, ok, throw,
  Text, String, arith, eq_refl, codes, inl, inr, ◌≢◌,
}
use team_index.Polymarket.TradeExecutor.{
  Executed, response_order_id, settled_as, claim_trade_intent, released, order_row, set_status,
  funded_by, confirmed_by, settle, record_unless, answered, submit_unless, with_terms, with_funds,
  confirmed, caught, funding_movement, with_intent, is_funding, execute_claimed_trade_intent,
}
use team_index.Polymarket.TradeExecutor.Prices.{Terms, decimal_to_base_units}
use team_index.Polymarket.TradeExecutor.Return.{
  update_intent, update_movement, fund_key, upsert_movement, Db, Intent, Order, IntentStatus,
  Account, Trading, OrderRequest, Response, Returned, return_idle_pusd_to_vault,
}
use team_index.Polymarket.TradeExecutor.Traced.{
  Ended, Event, Recorded, Refused, Settled, Unmoved, Unready, allocated, posted, traced,
}

module _ {W : Type 0} (t : Trading W) where
  return_idle_pusd_to_vault-events :
      (pool : String) (db : Db) (es : List Event) (w : W)
      → ((return_idle_pusd_to_vault (traced t) pool db (es, w)).1.1.0 ≡ es)
  unfolding return_idle_pusd_to_vault
  return_idle_pusd_to_vault-events pool db es w = ground arith

  return_idle_pusd_to_vault-intents :
      (pool id : String) (db : Db) (v : List Event × W)
      → (return_idle_pusd_to_vault (traced t) pool db v).1.0.intents id ≡ db.intents id
  unfolding return_idle_pusd_to_vault
  return_idle_pusd_to_vault-intents pool id db v = ground arith

  return_idle_pusd_to_vault-orders :
      (pool : String) (db : Db) (v : List Event × W)
      → (return_idle_pusd_to_vault (traced t) pool db v).1.0.orders ≡ db.orders
  unfolding return_idle_pusd_to_vault
  return_idle_pusd_to_vault-orders pool db v = ground arith

  module _ (id : String) where
    -- The outcome after the `catch` block, for the orders before
    abbrev Fine : List Order → Result Text Executed × (Db × (List Event × W)) → Type 0
    Fine before o =
        let out = caught (traced t) id o.0 o.1.0 o.1.1 in
        Ended id out.0 (out.1.0.intents id) out.1.1.0 before out.1.0.orders

    update_intent-at :
        (f : Intent → Intent) (db : Db) (i : Intent)
        → db.intents id ≡ some i
        → (update_intent id f db).intents id ≡ some (f i)
    update_intent-at f db i h = ground (arith, eq_refl id)

    failed-Settled :
        (db : Db) (i : Intent) (e : Text) (es : List Event) (w : W)
        → db.intents id ≡ some i
        → i.status ≢ IntentStatus.submitting
        → Settled id (throw e) IntentStatus.failed es db.orders db.orders
        → Fine db.orders (throw e, (db, (es, w)))
    failed-Settled db i e es w h s k = ground (arith, eq_refl id)

    unknown-Settled :
        (db : Db) (i : Intent) (e : Text) (es : List Event) (w : W)
        → db.intents id ≡ some i
        → i.status ≡ IntentStatus.submitting
        → Settled id (throw e) IntentStatus.needs_reconciliation es db.orders db.orders
        → Fine db.orders (throw e, (db, (es, w)))
    unknown-Settled db i e es w h s k = ground (arith, eq_refl id)

    -- After the return of the idle pUSD, as settle goes on
    returned-Ended :
        (reply : Result Text Returned) (intent i : Intent) (request : OrderRequest) (r : Response)
        (n : ℕ) (tx : Text) (db : Db) (es : List Event) (w : W) (before : List Order)
        → db.intents id ≡ some i
        → i.status ≡ IntentStatus.submitted
        → i.locked_by ≡ none
        → i.locked_at ≡ none
        → es ≡ posted request (ok r) ∷ allocated n (ok tx) ∷ []
        → Recorded id r before db.orders
        → Fine before (settled_as (traced t) id r reply (db, (es, w)))
    returned-Ended (ok returned) intent i request r n tx db es w before h s b a log k =
        rw (h, log, s) (k, b, a)
    returned-Ended (throw e) intent i request r n tx db es w before h s b a log k =
        rw (h, eq_refl id, log, s) (k, refl, refl)

    settle-Ended :
        (intent i : Intent) (request : OrderRequest) (r : Response) (n : ℕ) (tx : Text) (db : Db)
        (w : W) (before : List Order)
        → db.intents id ≡ some i
        → i.status ≡ IntentStatus.submitted
        → i.locked_by ≡ none
        → i.locked_at ≡ none
        → Recorded id r before db.orders
        → Fine before
            (settle (traced t) id intent r db (posted request (ok r) ∷ allocated n (ok tx) ∷ [], w))
    settle-Ended intent i request r n tx db w before h s b a k =
        let es = posted request (ok r) ∷ allocated n (ok tx) ∷ [] in
        let (reply, (db', (es', w'))) =
          return_idle_pusd_to_vault (traced t) intent.pool_id db (es, w) in
        let same_log : es' ≡ es = return_idle_pusd_to_vault-events intent.pool_id db es w in
        let same_intent : db'.intents id ≡ some i =
          return_idle_pusd_to_vault-intents intent.pool_id id db (es, w) ∙ h in
        let same_orders : db'.orders ≡ db.orders =
          return_idle_pusd_to_vault-orders intent.pool_id db (es, w) in
        returned-Ended reply intent i request r n tx db' es' w' before same_intent s b a same_log
          (rw same_orders k)

    record_unless-Ended :
        (b : Bool) (intent i : Intent) (row : Order) (request : OrderRequest) (r : Response) (n : ℕ)
        (tx : Text) (db : Db) (w : W)
        → db.intents id ≡ some i
        → i.status ≡ IntentStatus.submitting
        → row.intent_id ≡ id
        → row.external_order_id ≡ response_order_id r
        → Fine db.orders (
            record_unless
              (traced t)
              id
              b
              intent
              row
              r
              db
              (posted request (ok r) ∷ allocated n (ok tx) ∷ [], w))
    record_unless-Ended true intent i row request r n tx db w h s own external =
        unknown-Settled db i (codes "Unique constraint failed")
          (posted request (ok r) ∷ allocated n (ok tx) ∷ []) w h s refl
    record_unless-Ended false intent i row request r n tx db w h s own external =
        settle-Ended intent (released i) request r n tx
          (update_intent id released (record db { orders = row ∷ db.orders })) w db.orders
          (update_intent-at released (record db { orders = row ∷ db.orders }) i h) refl refl refl
          (row, refl, own, external)

    answered-Ended :
        (reply : Result Text Response) (intent i : Intent) (request : OrderRequest) (terms : Terms)
        (n : ℕ) (tx : Text) (db : Db) (w : W)
        → db.intents id ≡ some i
        → i.status ≡ IntentStatus.submitting
        → Fine db.orders (
            answered
              (traced t)
              id
              reply
              intent
              request
              terms
              db
              (posted request reply ∷ allocated n (ok tx) ∷ [], w))
    answered-Ended (throw e) intent i request terms n tx db w h s =
        unknown-Settled db i e (posted request (throw e) ∷ allocated n (ok tx) ∷ []) w h s refl
    answered-Ended (ok r) intent i request terms n tx db w h s =
        record_unless-Ended _ intent i (order_row id intent request terms r) request r n tx db w h s
          refl refl

    submit_unless-Ended :
        (b : Bool) (intent i : Intent) (terms : Terms) (cap n : ℕ) (tx : Text) (db : Db) (w : W)
        → db.intents id ≡ some i
        → i.status ≡ IntentStatus.funded
        → Fine db.orders
            (submit_unless (traced t) id b intent terms cap db (allocated n (ok tx) ∷ [], w))
    submit_unless-Ended true intent i terms cap n tx db w h s =
        failed-Settled db i (codes "Market price exceeds slippage cap") (allocated n (ok tx) ∷ []) w
          h (λ e. absurd (cc (e, s))) refl
    submit_unless-Ended false intent i terms cap n tx db w h s =
        answered-Ended _ intent (set_status IntentStatus.submitting i) _ terms n tx _ _
          (update_intent-at (set_status IntentStatus.submitting) db i h) refl

    with_terms-Ended :
        (reply : Result Text Terms) (intent i : Intent) (n : ℕ) (tx : Text) (db : Db) (w : W)
        → db.intents id ≡ some i
        → i.status ≡ IntentStatus.funded
        → Fine db.orders (with_terms (traced t) id reply intent db (allocated n (ok tx) ∷ [], w))
    with_terms-Ended (throw e) intent i n tx db w h s =
        failed-Settled db i e (allocated n (ok tx) ∷ []) w h (λ k. absurd (cc (k, s))) refl
    with_terms-Ended (ok terms) intent i n tx db w h s =
        submit_unless-Ended _ intent i terms _ n tx db w h s

    with_funds-Ended :
        (reply : Result Text Text) (intent i : Intent) (n : ℕ) (db : Db) (w : W)
        → db.intents id ≡ some i
        → i.status ≡ IntentStatus.funding
        → Fine db.orders (with_funds (traced t) id reply intent db (allocated n reply ∷ [], w))
    with_funds-Ended (throw e) intent i n db w h s =
        failed-Settled db i e (allocated n (throw e) ∷ []) w h (λ k. absurd (cc (k, s))) refl
    with_funds-Ended (ok tx) intent i n db w h s =
        with_terms-Ended _ intent (funded_by tx i) n tx (confirmed (traced t) id tx db) _
          (update_intent-at (funded_by tx) (update_movement (fund_key id) (confirmed_by tx) db) i h)
          refl

-- A claimed intent of a ready account, with an amount in base units, is posted at most once and
-- ends unlocked in one of these ways. On success it is submitted, after one allocation and one
-- accepted order, whose row is the one that was added to the orders. If an order was posted and no row
-- was added, as the post failed or its order could not be recorded, it needs reconciliation. It is
-- failed if nothing was posted, and no row added, or if the order was accepted and its row added but
-- an error followed.
pub execute-Ended :
    {W : Type 0} (t : Trading W) (id : String) (db : Db) (w : W) (i : Intent) (a : Account) (n : ℕ)
    → db.intents id ≡ some i
    → i.status ≡ IntentStatus.funding
    → db.accounts i.pool_id ≡ some a
    → a.ready && a.approvals_ready ≡ true
    → decimal_to_base_units i.reserved_pusd ≡ ok n
    → let (out, (after, (events, w'))) = execute_claimed_trade_intent (traced t) id db ([], w) in
      Ended id out (after.intents id) events db.orders after.orders
unfolding execute_claimed_trade_intent
execute-Ended t id db w i a n h s k r d =
    rw (h, s, k, r, d)
      (with_funds-Ended t id _ i i n
        (upsert_movement (fund_key id) (funding_movement (traced t) id i) db) _ h s)

Unready-Unmoved :
    {W : Type 0} (t : Trading W) (id : String) (db : Db) (w : W) (i : Intent)
    → Unready db i
    → Unmoved db (with_intent (traced t) id (is_funding (traced t) id (some i)) db ([], w))
Unready-Unmoved t id db w i r = ground arith

-- A trade that is refused before the funding, as the intent is not claimed, its account is not
-- ready, or its amount is finer than the base unit, moves no money and changes no table.
pub Refused-Unmoved :
    {W : Type 0} (t : Trading W) (id : String) (db : Db) (w : W)
    → Refused db id
    → Unmoved db (execute_claimed_trade_intent (traced t) id db ([], w))
unfolding execute_claimed_trade_intent
Refused-Unmoved t id db w (inl n) = rw n (tt, refl, refl)
Refused-Unmoved t id db w (inr (i, (h, r))) = rw h (Unready-Unmoved t id db w i r)

Settled-status :
    (id : String) (result : Result Text Executed) (s : IntentStatus) (es : List Event)
    (before after : List Order)
    → Settled id result s es before after
    → s ≢ IntentStatus.funding
Settled-status id result s es before after h e = ground arith

Ended-Refused :
    (id : String) (result : Result Text Executed) (found : Option Intent) (es : List Event)
    (before after : List Order)
    → Ended id result found es before after
    → (i : Intent) × ((found ≡ some i) × (i.status ≢ IntentStatus.funding))
Ended-Refused id result none es before after h = absurd h
Ended-Refused id result (some i) es before after h =
    (i, (refl, Settled-status id result i.status es before after h.0))

-- A trade intent that was executed is not executed again: a second call throws, moves no money and
-- changes no table, whatever the first one came to.
pub executed_once :
    {W : Type 0} (t : Trading W) (id : String) (db : Db) (w w' : W) (i : Intent) (a : Account)
    (n : ℕ)
    → db.intents id ≡ some i
    → i.status ≡ IntentStatus.funding
    → db.accounts i.pool_id ≡ some a
    → a.ready && a.approvals_ready ≡ true
    → decimal_to_base_units i.reserved_pusd ≡ ok n
    → Unmoved (execute_claimed_trade_intent (traced t) id db ([], w)).1.0 (
        execute_claimed_trade_intent
          (traced t)
          id
          (execute_claimed_trade_intent (traced t) id db ([], w)).1.0
          ([], w'))
executed_once t id db w w' i a n h s k r d =
    let ended = Ended-Refused id _ _ _ _ _ (execute-Ended t id db w i a n h s k r d) in
    Refused-Unmoved t id _ w' (inr (ended.0, (ended.1.0, inl ended.1.1)))

-- Of two claims of a trade intent at most one succeeds, whoever makes them.
pub claimed_once :
    (id worker worker' : String) (now now' : ℕ) (db : Db)
    → (claim_trade_intent id worker now db).0 ≡ true
    → (claim_trade_intent id worker' now' (claim_trade_intent id worker now db).1).0 ≡ false
unfolding claim_trade_intent
claimed_once id worker worker' now now' db h = ground (arith, eq_refl id)
