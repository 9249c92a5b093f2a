-- ===== src/Server/Logs/Socket/Wire.antt =====
-- What stands on the wire, and how the frames of a log grow with it.
use kle_ng_api.Prelude.{
  ◌≡◌, refl, sym, ap, ◌∙◌, inl, inr, Bool, true, false, ◌||◌, List, [], ◌∷◌, ◌++◌, append_assoc,
  append-nil, Bool-cases, arith,
}
use kle_ng_api.Logstream.Publisher.{Values}
use kle_ng_api.Server.Logs.{Frame}
use kle_ng_api.Server.Logs.Order.{up_to_end}
use kle_ng_api.Server.Logs.Backfill.{has_end}
use kle_ng_api.Server.Logs.Socket.{Message, ping, text, close_normal}

-- the log frames among the messages
unfoldable pub texts : List Message → List Frame
texts [] = []
texts (text f ∷ ms) = f ∷ texts ms
texts (_ ∷ ms) = texts ms

-- whether the close message is among them
unfoldable pub says_close : List Message → Bool
says_close [] = false
says_close (close_normal ∷ ms) = true
says_close (_ ∷ ms) = says_close ms

pub texts-append : (ms ns : List Message) → texts (ms ++ ns) ≡ texts ms ++ texts ns
unfolding texts
texts-append [] ns = refl
texts-append (ping ∷ ms) ns = texts-append ms ns
texts-append (text f ∷ ms) ns = ap (λ l. f ∷ l) (texts-append ms ns)
texts-append (close_normal ∷ ms) ns = texts-append ms ns

pub says_close-append :
    (ms ns : List Message) → says_close (ms ++ ns) ≡ (says_close ms || says_close ns)
unfolding says_close
says_close-append [] ns = refl
says_close-append (ping ∷ ms) ns = says_close-append ms ns
says_close-append (text f ∷ ms) ns = says_close-append ms ns
says_close-append (close_normal ∷ ms) ns = refl

pub or_true : (b : Bool) → (b || true) ≡ true
or_true true = refl
or_true false = refl

-- `got` is the beginning of `all`.
abbrev pub Begins : List Frame → List Frame → Type 0
Begins got all = (rest : List Frame) × (got ++ rest ≡ all)

pub up_to_end-append :
    (past more : List Values)
    → has_end past ≡ false
    → up_to_end (past ++ more) ≡ up_to_end past ++ up_to_end more
unfolding up_to_end has_end
up_to_end-append [] more h = refl
up_to_end-append (v ∷ past) more h = ground (arith, up_to_end-append past more)

pub has_end-append :
    (past more : List Values) → has_end (past ++ more) ≡ (has_end past || has_end more)
unfolding has_end
has_end-append [] more = refl
has_end-append (v ∷ past) more = ground (arith, has_end-append past more)

-- What comes behind an end marker is never shown.
pub up_to_end_ended :
    (past more : List Values) → has_end past ≡ true → up_to_end (past ++ more) ≡ up_to_end past
unfolding up_to_end has_end
up_to_end_ended [] more h = cc h
up_to_end_ended (v ∷ past) more h = ground (arith, up_to_end_ended past more)

pub log_grows : (past more : List Values) → Begins (up_to_end past) (up_to_end (past ++ more))
log_grows past more = elim (Bool-cases (has_end past)) [
  | inl e ↦ ([], append-nil _ ∙ sym (up_to_end_ended past more e))
  | inr e ↦ (up_to_end more, sym (up_to_end-append past more e))
]

pub Begins-trans : (a b c : List Frame) → Begins a b → Begins b c → Begins a c
Begins-trans a b c (r, e) (s, f) = (r ++ s, sym (append_assoc a r s) ∙ ap (λ t. t ++ s) e ∙ f)
