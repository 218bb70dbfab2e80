-- ===== src/Tests/Copying.antt =====
-- The theorems on copied trades at concrete inputs, in whole numbers.
use arc_smart_orders.Prelude.{
  ℕ, ◌≡◌, refl, true, false, none, some, String, str_eq, List, [], ◌∷◌, lower, arith, if◌then◌else◌,
}
use arc_smart_orders.Prelude.Int.{ℤ, pos}
use arc_smart_orders.Float.Exact.{exact}
use arc_smart_orders.Copy.{Trade, CopySettings, decide, plan_size, default_settings}
use arc_smart_orders.CopyEngine.{
  CopyStore, CopyWallet, done, failed, Executor, OnExec, Run, Legs, trades_loop, trade_step, follow,
  settle,
}
use arc_smart_orders.CopyEngine.Advance.{trades_loop_again}
use arc_smart_orders.CopyEngine.Retry.{failed_trade_is_skipped}
use arc_smart_orders.CopyEngine.Pass.{run_copy_engine}
use arc_smart_orders.CopyEngine.Pass.DryRun.{run_copy_engine_dry}

abbrev bought_at : ℕ → String → Trade ℤ
bought_at n token = record { token = token; side = "BUY"; stable_value = pos 100; block = n }

abbrev settings : CopySettings ℤ
settings = record (default_settings exact) { min_buy_usdc = pos 50; max_open = 2 }

abbrev leader : CopyWallet ℤ
leader = record {
  follower_chat = "7";
  leader = "0xl";
  flat_usdc = none;
  enabled = true;
  last_block = 5;
}

abbrev empty : CopyStore ℤ
empty = record {
  trading = record { fills = []; positions = []; bindings = []; credits = [] };
  wallets = leader ∷ [];
  settings = [];
}

-- Trades of the token 0xbad fail.
abbrev executor : Executor ℤ
executor chat w t d eff s = if str_eq t.token "0xbad" then (failed, s) else (done, s)

abbrev silent : OnExec ℤ
silent chat w t d s = s

abbrev begin : Run ℤ
begin = record {
  store = empty;
  advanced = 5;
  opened = 0;
  summary = record { wallets = 1; trades = 0; executed = 0; skipped = 0; errors = 0 };
}

abbrev legs : List (Trade ℤ)
legs = bought_at 6 "0xa" ∷ bought_at 8 "0xb" ∷ []

trades_loop_again_example :
    let reached =
      (trades_loop exact executor silent false leader settings 5 legs begin).1.advanced in
    trades_loop exact executor silent false leader settings reached legs begin ≡ (false, begin)
unfolding trades_loop trade_step follow settle decide plan_size lower
trades_loop_again_example =
    trades_loop_again exact executor silent false leader settings 5 legs begin begin (omega arith)
      refl

failed_trade_is_skipped_example :
    let (stop, r') =
      trades_loop exact executor silent false leader settings 5
        (bought_at 6 "0xa" ∷ bought_at 6 "0xbad" ∷ [])
        begin in
    (stop ≡ true)
    × (r'.advanced ≡ 6)
    × (trades_loop exact executor silent false leader settings r'.advanced
          (bought_at 6 "0xbad" ∷ [])
          begin
        ≡ (false, begin))
unfolding trade_step follow settle decide plan_size lower
failed_trade_is_skipped_example =
    failed_trade_is_skipped exact executor silent false leader settings 5 (bought_at 6 "0xa")
      (bought_at 6 "0xbad") begin begin refl (omega arith) refl refl refl

abbrev all_legs : Legs ℤ
all_legs who last = some legs

run_copy_engine_dry_example :
    (run_copy_engine exact executor silent true all_legs 9 empty).0.trading ≡ empty.trading
run_copy_engine_dry_example = run_copy_engine_dry exact executor silent all_legs 9 empty
