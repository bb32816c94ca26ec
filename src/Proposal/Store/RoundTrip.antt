-- ===== src/Proposal/Store/RoundTrip.antt =====
-- Adding a proposal and reading it back.
use openwallstreet.Prelude.{
  ℕ, ◌≡◌, refl, ap, ◌∙◌, true, false, some, arith, String, ◌==◌, string_eq, nat_eq, eq_iff,
  Bool-cases, inl, inr, contains, erase, lookup-insert, lookup-insert_self, erase-insert_new,
  erase-insert_ne, erase-new,
}
use openwallstreet.Proposal.Execution.{text}
use openwallstreet.Proposal.Execution.Valid.{from_dict-to_dict}
use openwallstreet.Proposal.Transitions.{value, pending}
use openwallstreet.Proposal.Store.{
  TradeProposal, Metadata, put_hint, pop_hint, row_of, proposal_of, Store, returned, add, get,
}

-- The keys under which the store keeps its hints are free.
pub record HintsFree (m : Metadata) : Type 0 where
  pub exchange : contains "_exchange" m ≡ false
  pub currency : contains "_currency" m ≡ false
  pub group : contains "_group" m ≡ false

pop-put :
    (key hint : String) (m : Metadata)
    → contains key m ≡ false
    → pop_hint key (put_hint key hint m) ≡ hint
unfolding pop_hint put_hint contains
pop-put key hint m free = elim (Bool-cases (hint == "")) [
  | inl empty ↦ ground (arith, eq_iff hint "")
  | inr set ↦ rw (set, put_hint) (rw (lookup-insert_self key (text hint) m, pop_hint))
]

erase-put :
    (key hint : String) (m : Metadata)
    → contains key m ≡ false
    → erase key (put_hint key hint m) ≡ m
unfolding put_hint
erase-put key hint m free = elim (Bool-cases (hint == "")) [
  | inl empty ↦ rw (empty, put_hint) (erase-new key m free)
  | inr set ↦ rw (set, put_hint) (erase-insert_new key (text hint) m free)
]

-- A hint is kept apart from another key.
contains-put :
    (key key' hint : String) (m : Metadata)
    → (key == key') ≡ false
    → contains key' (put_hint key hint m) ≡ contains key' m
unfolding put_hint contains
contains-put key key' hint m ne = elim (Bool-cases (hint == "")) [
  | inl empty ↦ rw (empty, put_hint)
  | inr set ↦ rw (set, put_hint) (rw (lookup-insert key key' (text hint) m, ne, contains))
]

pop-put_ne :
    (key key' hint : String) (m : Metadata)
    → (key == key') ≡ false
    → pop_hint key' (put_hint key hint m) ≡ pop_hint key' m
unfolding put_hint pop_hint
pop-put_ne key key' hint m ne = elim (Bool-cases (hint == "")) [
  | inl empty ↦ rw (empty, put_hint)
  | inr set ↦ rw (set, put_hint) (rw (lookup-insert key key' (text hint) m, ne, pop_hint))
]

erase-put_ne :
    (key key' hint : String) (m : Metadata)
    → (key' == key) ≡ false
    → erase key' (put_hint key hint m) ≡ put_hint key hint (erase key' m)
unfolding put_hint
erase-put_ne key key' hint m ne = elim (Bool-cases (hint == "")) [
  | inl empty ↦ rw (empty, put_hint)
  | inr set ↦ rw (set, put_hint) (erase-insert_ne key' key (text hint) m ne)
]

-- The metadata with its three hints, and what is left as each is popped.
module _ (m : Metadata) (free : HintsFree m) (exchange currency group : String) where
  abbrev with_exchange : Metadata
  with_exchange = put_hint "_exchange" exchange m

  abbrev with_all : Metadata
  with_all = put_hint "_group" group (put_hint "_currency" currency with_exchange)

  exchange_back : pop_hint "_exchange" with_all ≡ exchange
  exchange_back =
      pop-put_ne "_group" "_exchange" group _ refl
      ∙ (pop-put_ne "_currency" "_exchange" currency _ refl
          ∙ pop-put "_exchange" exchange m free.exchange)

  exchange_gone :
      erase "_exchange" with_all ≡ put_hint "_group" group (put_hint "_currency" currency m)
  exchange_gone =
      erase-put_ne "_group" "_exchange" group _ refl
      ∙ ap (put_hint "_group" group) (
          erase-put_ne "_currency" "_exchange" currency _ refl
          ∙ ap (put_hint "_currency" currency) (erase-put "_exchange" exchange m free.exchange))

  currency_back :
      pop_hint "_currency" (put_hint "_group" group (put_hint "_currency" currency m)) ≡ currency
  currency_back =
      pop-put_ne "_group" "_currency" group _ refl ∙ pop-put "_currency" currency m free.currency

  currency_gone :
      erase "_currency" (put_hint "_group" group (put_hint "_currency" currency m))
      ≡ put_hint "_group" group m
  currency_gone =
      erase-put_ne "_group" "_currency" group _ refl
      ∙ ap (put_hint "_group" group) (erase-put "_currency" currency m free.currency)

-- A row that was written from a proposal reads back as it, with its id and its timestamps.
proposal_of-row_of :
    (now id : ℕ) (p : TradeProposal)
    → HintsFree p.metadata
    → proposal_of id (row_of now p)
      ≡ record p { id = some id; created_at = some now; updated_at = some now }
unfolding proposal_of row_of
proposal_of-row_of now id p free = rw (
  from_dict-to_dict p.execution,
  exchange_back p.metadata free p.exchange p.currency p.group,
  exchange_gone p.metadata free p.exchange p.currency p.group,
  currency_back p.metadata free p.exchange p.currency p.group,
  currency_gone p.metadata free p.exchange p.currency p.group,
  pop-put "_group" p.group p.metadata free.group,
  erase-put "_group" p.group p.metadata free.group,
)

-- A pending proposal whose metadata keeps the three hint keys free is accepted under the next id, and
-- `get` of that id returns it with the id and the timestamps filled in.
get-add :
    (now : ℕ) (p : TradeProposal) (s : Store)
    → p.status ≡ value pending
    → HintsFree p.metadata
    → let (r, s') = add now p s in
      (r ≡ returned s.next_id)
      × (get s.next_id s'
          ≡ some (record p { id = some s.next_id; created_at = some now; updated_at = some now }))
unfolding add get
get-add now p s born free =
    let pending_row : (p.status == value pending) ≡ true =
      (eq_iff p.status (value pending)).1 born in
    rw pending_row (
      refl,
      rw (get, lookup-insert_self s.next_id (row_of now p) s.rows)
          (ap some (proposal_of-row_of now s.next_id p free)),
    )
