-- ===== src/Events/Deliver/Addresses.antt =====
-- The blocked addresses as ranges of 32-bit numbers.
use firefly_transaction_mana.Prelude.{ℕ, ◌+◌, ◌*◌, ◌≤◌, ◌<◌, ◌≡◌, ◌↔◌, ◌⊎◌, true, false, arith}
use firefly_transaction_mana.Events.Deliver.{is_address_blocked}

-- The address `a.b.c.d` as a number.
abbrev pub number_of : ℕ → ℕ → ℕ → ℕ → ℕ
number_of a b c d = ((a * 256 + b) * 256 + c) * 256 + d

-- Between two numbers, both included.
abbrev pub IsBetween : ℕ → ℕ → ℕ → Type 0
IsBetween lo hi x = (lo ≤ x) × (x ≤ hi)

-- 0.0.0.0/8, 10.0.0.0/8, 127.0.0.0/8, 172.16.0.0/12, 192.168.0.0/16, and 224.0.0.0 upwards.
abbrev pub IsReserved : ℕ → Type 0
IsReserved x =
    IsBetween 0 16777215 x
    ⊎ IsBetween 167772160 184549375 x
    ⊎ IsBetween 2130706432 2147483647 x
    ⊎ IsBetween 2886729728 2887778303 x
    ⊎ IsBetween 3232235520 3232301055 x
    ⊎ IsBetween 3758096384 4294967295 x

-- Where private addresses are not allowed, an address of four bytes is blocked exactly if it lies
-- in one of the six ranges.
pub is_address_blocked_iff :
    (a b c d : ℕ)
    → a < 256
    → b < 256
    → c < 256
    → d < 256
    → (is_address_blocked false a b ≡ true) ↔ IsReserved (number_of a b c d)
unfolding is_address_blocked
is_address_blocked_iff a b c d ha hb hc hd = (λ h. ground (arith, h), λ h. ground (arith, h))
