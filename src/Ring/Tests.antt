-- ===== src/Ring/Tests.antt =====
-- Runs of the ring buffers, and the theorems there.
use pcboot.Prelude.{◌*◌, ◌≡◌, refl, [], ◌∷◌}
use pcboot.Ring.{Ring, push}
use pcboot.Ring.Contents.{contents}

-- Three entries in a ring of four places, which are all that it holds.
abbrev full : Ring
full = record { buffer = λ i. i * 10; ridx = 2; widx = 1 }

holds : contents 4 full ≡ 20 ∷ 30 ∷ 0 ∷ []
holds = refl

drops_oldest : contents 4 (push 3 7 full) ≡ 30 ∷ 0 ∷ 7 ∷ []
unfolding push
drops_oldest = refl
