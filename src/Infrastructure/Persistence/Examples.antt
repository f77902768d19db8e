-- ===== src/Infrastructure/Persistence/Examples.antt =====
-- The theorems on the saved state of backend/infrastructure/trading_state.py at concrete inputs: the
-- JSON texts are the snapshots, and the signature tells signed ones from others.
use dutchkem_trading_ai.Common.{eq_iff, String, Option, none, some, false, List, [], ◌∷◌, ◌≡◌, refl}
use dutchkem_trading_ai.Infrastructure.Persistence.{
  Snapshot, positions, Stores, works, writable, Backends, save_state, load_state, signed,
}
use dutchkem_trading_ai.Infrastructure.Persistence.Loading.{
  Saved, nothing, then_save, empty_stores, load_state-none,
}
use dutchkem_trading_ai.Infrastructure.Persistence.Emergency.{
  save_emergency_state, saved_empty, save_emergency_state-empties,
}

abbrev text_of : Snapshot → Snapshot
text_of t = t

abbrev parse : Snapshot → Option Snapshot
parse t = some t

abbrev is_signed : Option String → String
is_signed none = "unsigned"
is_signed (some x) = "signed"

abbrev hmac : Snapshot → String
hmac t = is_signed t.signature

abbrev backends : Backends Snapshot
backends = record {
  client = works;
  disk = writable;
  database = false;
  time = 1000;
  iso = "2026-01-01";
}

abbrev eurusd : List String
eurusd = "EURUSD" ∷ []

abbrev one_save : Stores Snapshot
one_save = (save_state text_of parse hmac backends "positions" (positions eurusd 1) empty_stores).1

one_save-Saved : Saved text_of parse hmac one_save
one_save-Saved = then_save backends "positions" (positions eurusd 1) empty_stores nothing tt

not_signed : {A : Type 0} → ◌≡◌ {A = String} "signed" "unsigned" → A
not_signed e = let f = (eq_iff "signed" "unsigned").1 e in cc

hmac_differs :
    (t : Snapshot)
    → t.signature ≡ none
    → hmac (signed text_of parse hmac t) ≡ hmac t
    → signed text_of parse hmac t ≡ t
unfolding signed
hmac_differs t n e = not_signed (rw n at e)

load_state-none_example : load_state text_of parse hmac works "positions" one_save ≡ none
load_state-none_example =
    load_state-none text_of parse hmac (λ t. refl) hmac_differs works "positions" one_save-Saved

save_emergency_state-empties_example :
    save_emergency_state text_of parse hmac backends backends backends one_save
    ≡ saved_empty text_of parse hmac backends backends backends one_save
save_emergency_state-empties_example =
    save_emergency_state-empties text_of parse hmac (λ t. refl) hmac_differs backends backends
      backends one_save-Saved tt tt
