-- ===== src/Client/Retry/Definition.antt =====
-- After a connection was lost, keyword calls get a session only with the library definition that Robot
-- Framework registered: `_ensure_session` of src/JsonRpcRemote/__init__.py, call after call.
use robotframework_jsonrpcre.Base.{
  ℕ, suc, Bool, true, false, Option, none, some, List, [], ◌∷◌, String, ◌≡◌, refl, ap, ◌∙◌, ◌⊎◌,
  inl, inr, ◌=ₛ◌, if◌then◌else◌, Bool-cases, eq_iff, is_some,
}
use robotframework_jsonrpcre.Base.Result.{Exception, Result-cases}
use robotframework_jsonrpcre.Client.Retry.{
  Session, Outage, Client, Attempt, Connected, connected, failed, waits, Texts, outage_of, spend,
  count_failure, attempts_from, connect_with_retry, may_retry, take_session, take_connected,
  new_session, with_session, unless_incompatible, ensure_session, drop_lost,
}
use robotframework_jsonrpcre.Client.Retry.Attempts.{loss_of}

abbrev or_next : Connected → (Client → Connected) → Connected
or_next (connected s d) next = connected s d
or_next (failed e d) next = next d
or_next (waits d) next = waits d

-- Keyword calls one after the other, each with its attempts, up to the first one that has a session.
unfoldable pub until_connected : Texts → List (List Attempt) → Client → Connected
until_connected t [] c = waits c
until_connected t (attempts ∷ calls) c =
    or_next (ensure_session t attempts c) (until_connected t calls)

abbrev client_of : Connected → Client
client_of (connected s c) = c
client_of (failed e c) = c
client_of (waits c) = c

outage_of-loss : (o : Option Outage) → (outage_of o).outage_loss ≡ loss_of o
outage_of-loss none = refl
outage_of-loss (some o) = refl

-- What attempts leave alone.
record Same (c d : Client) : Type 0 where
  same_loss : loss_of d.outage ≡ loss_of c.outage
  same_definition : d.registered_definition ≡ c.registered_definition
  same_session : d.session ≡ c.session

Same-refl : (c : Client) → Same c c
Same-refl c = record { same_loss = refl; same_definition = refl; same_session = refl }

count_failure-Same : (c : Client) → Same c (count_failure c)
count_failure-Same c = record {
  same_loss = outage_of-loss c.outage;
  same_definition = refl;
  same_session = refl;
}

spent-Same : (c : Client) → Same c (spend (count_failure c))
spent-Same c = record {
  same_loss = outage_of-loss c.outage;
  same_definition = refl;
  same_session = refl;
}

Same-trans : (a b c : Client) → Same a b → Same b c → Same a c
Same-trans a b c h k = record {
  same_loss = k.same_loss ∙ h.same_loss;
  same_definition = k.same_definition ∙ h.same_definition;
  same_session = k.same_session ∙ h.same_session;
}

attempts_from-Same :
    (spent_error : Exception → ℕ → Exception) (retry : Bool) (n : ℕ) (attempts : List Attempt)
    (c : Client)
    → Same c (client_of (attempts_from spent_error retry n attempts c))
unfolding attempts_from
attempts_from-Same spent_error retry n [] c = Same-refl c
attempts_from-Same spent_error retry n (a ∷ more) c = elim (Result-cases a.outcome) [
  | inl (x, q) ↦ rw q (Same-refl c)
  | inr (x, q) ↦ elim (Bool-cases retry) [
    | inl y ↦ elim (Bool-cases a.remains) [
      | inl r ↦
          rw (q, y, r)
            (Same-trans c (count_failure c) _ (count_failure-Same c)
              (attempts_from-Same spent_error retry (suc n) more (count_failure c)))
      | inr r ↦ rw (q, y, r) (spent-Same c)
    ]
    | inr y ↦ rw (q, y) (count_failure-Same c)
  ]
]

-- The stored session is lost.
abbrev Lost : Client → Type 0
Lost c = (s : Session) × (loss : String) × (c.session ≡ some s) × (s.loss ≡ some loss)

-- No session is stored, and the loss of the last one is kept.
abbrev Missing : Client → Type 0
Missing c = (loss : String) × (c.session ≡ none) × (loss_of c.outage ≡ some loss)

-- What a loss leaves until a session has been checked.
abbrev Pending : Client → Type 0
Pending c = (is_some c.incompatible ≡ true) ⊎ (Missing c ⊎ Lost c)

Checked : Texts → Client → Session → Type 0
Checked t c s = t.definition_changes c.registered_definition s.library_definition ≡ ""

-- What a call may come to while a loss is pending.
After : Texts → Client → Connected → Type 0
unfolding Checked
After t c (connected s d) = Checked t c s
After t c (failed e d) = Pending d × (d.registered_definition ≡ c.registered_definition)
After t c (waits d) = Unit

module _ (t : Texts) where
  take_session-After :
      (o : Option Outage) (c : Client) (s : Session) (loss : String)
      → loss_of o ≡ some loss
      → After t c (take_session t o s c)
  unfolding take_session After Checked
  take_session-After none c s loss l = absurd (cc)
  take_session-After (some o) c s loss l =
      elim (Bool-cases (t.definition_changes c.registered_definition s.library_definition =ₛ "")) [
        | inl e ↦ rw (l, e) ((eq_iff _ "").0 e)
        | inr e ↦ rw (l, e) (inl refl, refl)
      ]

  After-definition :
      (c d : Client) (r : Connected)
      → d.registered_definition ≡ c.registered_definition
      → After t d r
      → After t c r
  unfolding After Checked
  After-definition c d (connected s e) h k = rw h at k
  After-definition c d (failed x e) h (p, k) = (p, k ∙ h)
  After-definition c d (waits e) h k = tt

  take_connected-After :
      (c : Client) (r : Connected)
      → Missing c
      → Same c (client_of r)
      → After t c (take_connected t r)
  unfolding take_connected After
  take_connected-After c (connected s d) (loss, n, l) k =
      After-definition c (record d { outage = none }) _ k.same_definition
        (take_session-After d.outage (record d { outage = none }) s loss (k.same_loss ∙ l))
  take_connected-After c (failed e d) (loss, n, l) k =
      (inr (inl (loss, k.same_session ∙ n, k.same_loss ∙ l)), k.same_definition)
  take_connected-After c (waits d) m k = tt

  new_session-After :
      (attempts : List Attempt) (c : Client) → Missing c → After t c (new_session t attempts c)
  unfolding new_session connect_with_retry
  new_session-After attempts c m =
      take_connected-After c _ m (attempts_from-Same t.spent_error (may_retry c) 0 attempts c)

  either-After :
      (c : Client) (b : Bool) (x y : Connected)
      → After t c x
      → After t c y
      → After t c (if b then x else y)
  either-After c true x y h k = h
  either-After c false x y h k = k

  with_session-After :
      (attempts : List Attempt) (stored : Option Session) (c : Client) (s : Session) (loss : String)
      → stored ≡ some s
      → s.loss ≡ some loss
      → Pending c
      → After t c (with_session t attempts stored c)
  unfolding with_session After Checked
  with_session-After attempts none c s loss h l p = absurd (cc)
  with_session-After attempts (some k) c s loss h l p =
      let same : k ≡ s = cc in
      let m : k.loss ≡ some loss = ap (λ (x : Session). x.loss) same ∙ l in
      rw m (
        either-After c c.with_retry _ _
          (After-definition c (drop_lost k loss c) _ refl
            (new_session-After attempts (drop_lost k loss c) (loss, refl, refl)))
          (p, refl))

  without_session-After :
      (attempts : List Attempt) (stored : Option Session) (c : Client)
      → stored ≡ none
      → Missing c
      → After t c (with_session t attempts stored c)
  unfolding with_session
  without_session-After attempts none c h m = new_session-After attempts c m
  without_session-After attempts (some k) c h m = absurd (cc)

  ensure_session-After :
      (attempts : List Attempt) (o : Option String) (c : Client)
      → o ≡ c.incompatible
      → Pending c
      → After t c (unless_incompatible t attempts o c)
  unfolding unless_incompatible After
  ensure_session-After attempts (some text) c h p = (p, refl)
  ensure_session-After attempts none c h (inl i) = absurd (cc (rw (← h) at i))
  ensure_session-After attempts none c h (inr (inl m)) =
      without_session-After attempts c.session c m.1 m
  ensure_session-After attempts none c h (inr (inr (s, loss, i, l))) =
      with_session-After attempts c.session c s loss i l (inr (inr (s, loss, i, l)))

  or_next-Checked :
      (c : Client) (r : Connected) (next : Client → Connected) (s : Session) (d : Client)
      → After t c r
      → ((e : Client) → Pending e → next e ≡ connected s d → Checked t e s)
      → or_next r next ≡ connected s d
      → Checked t c s
  unfolding After Checked
  or_next-Checked c (connected x e) next s d k go h = let same : x ≡ s = cc in rw same at k
  or_next-Checked c (failed x e) next s d (p, k) go h = rw k at (go e p h)
  or_next-Checked c (waits e) next s d k go h = absurd (cc)

  until_connected-Pending :
      (calls : List (List Attempt)) (c : Client) (s : Session) (d : Client)
      → Pending c
      → until_connected t calls c ≡ connected s d
      → Checked t c s
  unfolding until_connected ensure_session
  until_connected-Pending [] c s d p h = absurd (cc)
  until_connected-Pending (attempts ∷ calls) c s d p h =
      or_next-Checked c (ensure_session t attempts c) (until_connected t calls) s d
        (ensure_session-After attempts c.incompatible c refl p)
        (λ e q k. until_connected-Pending calls e s d q k) h

-- After a connection was lost, whatever the attempts of that keyword call and of the calls after it
-- come to, the spent window of connect retry and a session with another definition included: the
-- first session that a call gets has a library definition that does not differ from the one that
-- Robot Framework has registered. No session scope ends between these calls.
pub until_connected-Checked :
    (t : Texts) (calls : List (List Attempt)) (lost : Session) (loss : String) (c : Client)
    (s : Session) (d : Client)
    → c.session ≡ some lost
    → lost.loss ≡ some loss
    → until_connected t calls c ≡ connected s d
    → t.definition_changes c.registered_definition s.library_definition ≡ ""
unfolding Checked
until_connected-Checked t calls lost loss c s d i l h =
    until_connected-Pending t calls c s d (inr (inr (lost, loss, i, l))) h
