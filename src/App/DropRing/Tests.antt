-- ===== src/App/DropRing/Tests.antt =====
-- Runs of the rings at capacity three, and the theorems applied to them.
use pipecat_voice_assistant.Prelude.{ℕ, ◌≡◌, refl, [], ◌∷◌, ◌++◌, arith}
use pipecat_voice_assistant.App.DropRing
use pipecat_voice_assistant.App.DropRing.{DropRing}
use pipecat_voice_assistant.App.DropRing.Wrap.{read}
use pipecat_voice_assistant.App.DropRing.Contents.{IsValid, contents, latest, contents-push_all}
use pipecat_voice_assistant.App.DropRing.Snapshot.{snapshot-contents}

-- The oldest element in the last slot.
abbrev wrapped : DropRing ℕ
wrapped = record { slots = 20 ∷ 30 ∷ 10 ∷ []; head = 2; count = 3 }

wrapped-IsValid : IsValid 2 0 wrapped
wrapped-IsValid = record { full_size = refl; inside = ground arith; counted = ground arith }

wrapped-contents : contents 2 0 wrapped ≡ 10 ∷ 20 ∷ 30 ∷ []
unfolding contents read
wrapped-contents = refl

full_push : contents 2 0 (DropRing.push 3 wrapped 40) ≡ 20 ∷ 30 ∷ 40 ∷ []
unfolding contents read DropRing.push
full_push = refl

contents-push_all_example :
    IsValid 2 0 (DropRing.push_all 3 wrapped (40 ∷ 50 ∷ []))
    × (contents 2 0 (DropRing.push_all 3 wrapped (40 ∷ 50 ∷ []))
        ≡ latest 2 0 (contents 2 0 wrapped ++ (40 ∷ 50 ∷ [])))
contents-push_all_example = contents-push_all 2 0 wrapped (40 ∷ 50 ∷ []) wrapped-IsValid

snapshot-contents_example : DropRing.snapshot 3 wrapped ≡ contents 2 0 wrapped
snapshot-contents_example = snapshot-contents 2 0 wrapped wrapped-IsValid
