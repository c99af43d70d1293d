-- ===== src/Messaging/Queries/Keys.antt =====
-- The primary key of channel_members, and what it gives the queries.
use ziyad_messenger.Base.{String, Bool, false, ◌≡◌, refl, List, [], ◌∷◌, ◌==◌, eq_iff, arith, any}
use ziyad_messenger.Messaging.Queries.{has_member, members_of}

abbrev pub contains : String → List String → Bool
contains u us = any (λ v. v == u) us

abbrev pub AllDistinct : List String → Type 0
AllDistinct [] = Unit {0}
AllDistinct (u ∷ us) = (contains u us ≡ false) × AllDistinct us

-- No pair of a channel and a user stands in two rows.
abbrev pub IsKeyed : List (String × String) → Type 0
IsKeyed [] = Unit {0}
IsKeyed ((c, u) ∷ ms) = (has_member c u ms ≡ false) × IsKeyed ms

-- A user is among the rows of a channel just when the membership test says so.
pub contains-members_of :
    (c u : String) (ms : List (String × String)) → contains u (members_of c ms) ≡ has_member c u ms
unfolding has_member members_of
contains-members_of c u [] = refl
contains-members_of c u ((d, v) ∷ ms) = ground (arith, contains-members_of c u ms)

pub members_of-AllDistinct :
    (c : String) (ms : List (String × String)) → IsKeyed ms → AllDistinct (members_of c ms)
unfolding members_of
members_of-AllDistinct c [] k = tt
members_of-AllDistinct c ((d, v) ∷ ms) k =
    ground (arith, members_of-AllDistinct c ms k.1, contains-members_of c v ms, eq_iff d c)
