-- ===== src/Base/Runs.antt =====
-- Calls on a state that others share: a call gives its result and the state after it. Ends states what
-- holds after a call; a call that is made of others ends well if each of them leaves the next to end well.
use agentic_voice_sdr.Base.{◌≡◌, refl, Bool, true, false, if◌then◌else◌}

abbrev pub Run : Type 0 → Type 0 → Type 0
Run S A = S → A × S

unfoldable pub return : {S A : Type 0} → A → Run S A
return a w = (a, w)

infixl 5 ◌>>=◌
unfoldable pub ◌>>=◌ : {S A B : Type 0} → Run S A → (A → Run S B) → Run S B
◌>>=◌ m k w = let r = m w in k r.0 r.1

-- A call that first looks at the state.
unfoldable pub look : {S A : Type 0} → (S → Run S A) → Run S A
look f w = f w w

-- The result of a call and the world after it have the property.
pub data Ends {S A : Type 0} (P : A → S → Type 0) (m : Run S A) (w : S) : Type 0 where
  ends : P (m w).0 (m w).1 → Ends P m w

pub Ends-holds :
    {S A : Type 0} {P : A → S → Type 0} {m : Run S A} {w : S} → Ends P m w → P (m w).0 (m w).1
Ends-holds (ends h) = h

-- A property that holds whatever the call does.
pub any-Ends :
    {S A : Type 0} {P : A → S → Type 0} {m : Run S A} {w : S}
    → ((a : A) (v : S) → P a v)
    → Ends P m w
any-Ends {m = m} {w = w} h = ends (h (m w).0 (m w).1)

pub mono-Ends :
    {S A : Type 0} {P Q : A → S → Type 0} {m : Run S A} {w : S}
    → Ends Q m w
    → ((a : A) (v : S) → Q a v → P a v)
    → Ends P m w
mono-Ends (ends h) k = ends (k _ _ h)

pub return-Ends : {S A : Type 0} {P : A → S → Type 0} (a : A) {w : S} → P a w → Ends P (return a) w
return-Ends a h = ends (unfold return in h)

pub >>=-Ends :
    {S A B : Type 0} {P : B → S → Type 0} {m : Run S A} {k : A → Run S B} {w : S}
    → Ends (λ a v. Ends P (k a) v) m w
    → Ends P (m >>= k) w
unfolding ◌>>=◌
>>=-Ends (ends (ends h)) = ends h

pub if-Ends :
    {S A : Type 0} {P : A → S → Type 0} {m k : Run S A} {w : S} (b : Bool)
    → Ends P m w
    → Ends P k w
    → Ends P (if b then m else k) w
if-Ends true h g = h
if-Ends false h g = g

pub look-Ends :
    {S A : Type 0} {P : A → S → Type 0} (f : S → Run S A) {w : S}
    → Ends P (f w) w
    → Ends P (look f) w
unfolding look
look-Ends f (ends h) = ends h

-- Calls of which only the result is known.
pub bool-Ends :
    {S : Type 0} {P : Bool → S → Type 0} {m : Run S Bool} {w : S}
    → ((v : S) → P false v)
    → ((v : S) → P true v)
    → Ends P m w
bool-Ends {P = P} f t = any-Ends go
  where
    go : (b : Bool) (v : _) → P b v
    go false v = f v
    go true v = t v

pub pair-Ends :
    {S : Type 0} {P : Bool × Bool → S → Type 0} {m : Run S (Bool × Bool)} {w : S}
    → ((a : Bool) (v : S) → P (a, false) v)
    → ((v : S) → P (false, true) v)
    → ((v : S) → P (true, true) v)
    → Ends P m w
pair-Ends {P = P} f g t = any-Ends go
  where
    go : (b : Bool × Bool) (v : _) → P b v
    go (a, false) v = f a v
    go (false, true) v = g v
    go (true, true) v = t v

-- A call ends with what it returns.
pub called-Ends :
    {S A : Type 0} {P : A → S → Type 0} {m : Run S A} {w : S}
    → ((a : A) (v : S) → m w ≡ (a, v) → P a v)
    → Ends P m w
called-Ends {m = m} {w = w} h = ends (h (m w).0 (m w).1 refl)

pub done-Ends :
    {S : Type 0} {P : Bool → S → Type 0} {m : Run S Bool} {w : S}
    → ((v : S) → P false v)
    → ((v : S) → m w ≡ (true, v) → P true v)
    → Ends P m w
done-Ends {P = P} {m = m} {w = w} f t = called-Ends go
  where
    go : (b : Bool) (v : _) → m w ≡ (b, v) → P b v
    go false v e = f v
    go true v e = t v e
