-- ===== src/Tests/Protecting.antt =====
-- The theorems on auto-protection at concrete inputs, in whole numbers.
use arc_smart_orders.Prelude.{
  ℕ, ◌-◌, ◌/◌, ◌≡◌, refl, sym, ap, ◌∙◌, true, false, Bool-cases, inl, inr, some, none, Option, List,
  [], ◌∷◌, String, str_eq, eq_iff, lower, All, In, length, arith, if◌then◌else◌,
}
use arc_smart_orders.Prelude.Int.{ℤ, pos, pos_part}
use arc_smart_orders.Float.Exact.{exact}
use arc_smart_orders.State.{custody_paused, get_state}
use arc_smart_orders.Custody.{Wallet, get_custody}
use arc_smart_orders.Subscriptions.{Subscriber, member}
use arc_smart_orders.AutoProtect.{
  Pool, Storage, Store, Chain, risk, with_lower, load_pool, latest_price, sell_for_holders,
  on_alerts,
}
use arc_smart_orders.AutoProtect.Sales.{recorded, Permitted, on_alerts-Permitted}
use arc_smart_orders.AutoProtect.Complete.{IsCalm, OwnWallets, sales, sell_for_holders-sales}

-- Balances of one token by their holders.
abbrev Balances : Type 0
Balances = String → ℕ

abbrev pub chain : Chain Balances
chain = record {
  erc20_balance = λ token holder w. some (w holder);
  ensure_approval = λ chat enc_secret token w. (true, w);
  new_nonce = λ w. 1;
  time = λ w. 1000;
  swap = λ s order_nonce deadline w.
      (true, λ h. if str_eq s.recipient h then w h - s.amount_in else w h);
}

chain-IsCalm : IsCalm chain
chain-IsCalm = record {
  approves = λ chat enc_secret token w. refl;
  approval_moves_nothing = λ chat enc_secret token t holder w. refl;
  swaps = λ s nonce deadline w. refl;
  swap_moves_own = λ s nonce deadline holder w other.
      elim (Bool-cases (str_eq s.recipient holder)) [
        | inl e ↦ absurd (other ((eq_iff s.recipient holder).0 e))
        | inr e ↦ rw e refl
      ];
}

abbrev subscriber : String → Subscriber
subscriber chat = record { chat_id = chat; tokens = []; wallets = []; kinds = []; since_block = 0 }

abbrev wallet : String → String → Wallet
wallet chat address = record {
  chat = chat;
  address = address;
  enc_secret = "sealed";
  created_ts = 1;
  status = "active";
}

-- The second of three has switched auto-protection off.
abbrev pub store : Store
store = record {
  subscribers = subscriber "7" ∷ subscriber "8" ∷ subscriber "9" ∷ [];
  holdings =
      record { chat = "7"; token = "0xt"; added_ts = 1 }
      ∷ record { chat = "8"; token = "0xt"; added_ts = 2 }
      ∷ record { chat = "9"; token = "0xt"; added_ts = 3 }
      ∷ [];
  vault = record {
    state = ("autoprotect:8", "0") ∷ [];
    custody = wallet "7" "0x7" ∷ wallet "8" "0x8" ∷ wallet "9" "0x9" ∷ [];
    custody_addrs = [];
    key_audit = [];
    allowlist = [];
  };
}

abbrev pool : Pool
pool = record {
  pool_id = "p";
  currency0 = "0xT";
  currency1 = "0xUSDC";
  fee = 3000;
  tick_spacing = 60;
  hooks = "0x0";
}

abbrev pub storage : Storage ℤ
storage = record {
  pools_v4 = pool ∷ [];
  legs = record { token = "0xt"; block = 5; price = some (pos 2) } ∷ [];
}

abbrev pub ratio : ℕ → ℕ → ℤ
ratio a b = pos (a / b)

abbrev pub start : Balances
start h = 50

address_of : Option Wallet → String
address_of none = ""
address_of (some c) = c.address

apart :
    (a b : Wallet) (c d : Wallet)
    → str_eq a.address b.address ≡ false
    → some a ≡ some c
    → some b ≡ some d
    → c.address ≡ d.address
    → ⊥
unfolding address_of
apart a b c d e ha hb same =
    let eq : a.address ≡ b.address = ap address_of ha ∙ same ∙ sym (ap address_of hb) in
    absurd (ground (arith, (eq_iff a.address b.address).1 eq))

own : OwnWallets store store.subscribers
unfolding get_custody
own = (
  (
    λ c d. apart (wallet "7" "0x7") (wallet "8" "0x8") c d refl,
    (λ c d. apart (wallet "7" "0x7") (wallet "9" "0x9") c d refl, tt),
  ),
  ((λ c d. apart (wallet "8" "0x8") (wallet "9" "0x9") c d refl, tt), (tt, tt)),
)

sell_for_holders-sales_example :
    let out =
      sell_for_holders exact ratio pos_part
        (recorded chain)
        (pos 100)
        (pos 30)
        (λ t. 1)
        storage
        store
        "0xT"
        (start, []) in
    let price = latest_price exact ratio pos_part storage (lower "0xT") in
    let ss =
      sales exact ratio pos_part chain
        (pos 100)
        (pos 30)
        price
        1
        (with_lower pool)
        store
        (lower "0xT")
        store.subscribers
        start in
    (out.0 ≡ length ss) × (out.1.1 ≡ ss)
unfolding load_pool lower custody_paused get_state
sell_for_holders-sales_example =
    sell_for_holders-sales exact ratio pos_part chain (pos 100) (pos 30) (λ t. 1) storage store
      "0xT" (with_lower pool) start chain-IsCalm own refl refl refl

abbrev alerts : List (String × Option String)
alerts = ("dev_sell", some "0xT") ∷ ("volume", some "0xT") ∷ []

on_alerts-Permitted_example :
    All
      (λ s.
        (kind : String) × (token : String) × In (kind, some token) alerts
        × (member kind risk ≡ true)
        × Permitted store (lower token) s)
      (on_alerts exact ratio pos_part
        (recorded chain)
        (λ t. 1)
        storage
        store
        alerts
        (start, [])).1.1
on_alerts-Permitted_example =
    on_alerts-Permitted exact ratio pos_part chain (λ t. 1) storage store alerts start
