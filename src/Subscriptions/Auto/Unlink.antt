-- ===== src/Subscriptions/Auto/Unlink.antt =====
-- What unlinking a wallet takes away.
use arc_smart_orders.Prelude.{Option, none, some, List, [], String}
use arc_smart_orders.Subscriptions.{Subs, Subscriber, get}

abbrev pub tokens_or_empty : Option Subscriber → List String
tokens_or_empty none = []
tokens_or_empty (some row) = row.tokens

-- What a chat is subscribed to, as `get` reads it.
unfoldable pub tokens_of : String → Subs → List String
tokens_of chat s = tokens_or_empty (get chat s)
