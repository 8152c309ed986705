-- ===== src/Isup/TimerSettings.antt =====
-- `ss7_set_isup_timer`. `same` is strcasecmp, or rather whether it answers 0.
use libss.Base.{ℕ, Bool, List, [], ◌∷◌, ◌==◌, if◌then◌else◌}

-- The names in the order in which they are compared, and the timers.
abbrev pub timer_names : List (List ℕ × ℕ)
timer_names =
    (b't' ∷ b'1' ∷ [], 1)
    ∷ (b't' ∷ b'2' ∷ [], 2)
    ∷ (b't' ∷ b'5' ∷ [], 5)
    ∷ (b't' ∷ b'6' ∷ [], 6)
    ∷ (b't' ∷ b'7' ∷ [], 7)
    ∷ (b't' ∷ b'8' ∷ [], 8)
    ∷ (b't' ∷ b'1' ∷ b'0' ∷ [], 10)
    ∷ (b't' ∷ b'1' ∷ b'2' ∷ [], 12)
    ∷ (b't' ∷ b'1' ∷ b'3' ∷ [], 13)
    ∷ (b't' ∷ b'1' ∷ b'4' ∷ [], 14)
    ∷ (b't' ∷ b'1' ∷ b'5' ∷ [], 15)
    ∷ (b't' ∷ b'1' ∷ b'6' ∷ [], 16)
    ∷ (b't' ∷ b'1' ∷ b'7' ∷ [], 17)
    ∷ (b't' ∷ b'1' ∷ b'8' ∷ [], 18)
    ∷ (b't' ∷ b'1' ∷ b'9' ∷ [], 19)
    ∷ (b't' ∷ b'2' ∷ b'0' ∷ [], 20)
    ∷ (b't' ∷ b'2' ∷ b'1' ∷ [], 21)
    ∷ (b't' ∷ b'2' ∷ b'2' ∷ [], 22)
    ∷ (b't' ∷ b'2' ∷ b'3' ∷ [], 23)
    ∷ (b't' ∷ b'2' ∷ b'7' ∷ [], 27)
    ∷ (b't' ∷ b'3' ∷ b'3' ∷ [], 33)
    ∷ (b't' ∷ b'3' ∷ b'5' ∷ [], 35)
    ∷ []

-- The delays, and whether the name is that of a timer.
unfoldable pub set_named :
    (List ℕ → List ℕ → Bool) → List (List ℕ × ℕ) → List ℕ → ℕ → (ℕ → ℕ) → (ℕ → ℕ) × ℕ
set_named same [] name ms delays = (delays, 0)
set_named same (n ∷ ns) name ms delays =
    if same name (n.0)
    then (λ t. if t == n.1 then ms else delays t, 1)
    else set_named same ns name ms delays

unfoldable pub ss7_set_isup_timer : (List ℕ → List ℕ → Bool) → List ℕ → ℕ → (ℕ → ℕ) → (ℕ → ℕ) × ℕ
unfolding set_named
ss7_set_isup_timer same = set_named same timer_names
