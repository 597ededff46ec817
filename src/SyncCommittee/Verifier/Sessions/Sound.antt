-- ===== src/SyncCommittee/Verifier/Sessions/Sound.antt =====
-- What an installation session is in every reachable state of contracts/sync_committee/verifier.py.
use eth_avm_light_client.Prelude.{
  ℕ, ◌+◌, ◌<◌, ◌≡◌, refl, sym, ap, subst, ◌∙◌, Bool, true, false, Option, none, arith,
  if◌then◌else◌,
}
use eth_avm_light_client.Avm.{Bytes, ok, Hashes, u64_mod}
use eth_avm_light_client.Bls.Curve.{Curve}
use eth_avm_light_client.SyncCommittee.Install.{session_box_name}
use eth_avm_light_client.SyncCommittee.Install.Committee.Held.{Holds}
use eth_avm_light_client.SyncCommittee.Verifier.{
  Verifier, append_fork_row, bootstrap, install_begin, reserve,
}
use eth_avm_light_client.SyncCommittee.Verifier.Update.{
  Arguments, Checked, UpdateVerified, rollover,
}
use eth_avm_light_client.SyncCommittee.Verifier.Effects.{
  Discovered, kept, found, Applied, stays, advanced,
}
use eth_avm_light_client.SyncCommittee.Verifier.Generations.{Ordered}

-- No session box is there before its session is opened, and an open one stands for the members up
-- to the cursor.
pub record IsSound (h : Hashes) (c : Curve) (s : Verifier) : Type 0 where
  pub ordered : Ordered s
  pub unopened : (g : ℕ) → s.gen_counter < g → g < u64_mod → s.boxes (session_box_name g) ≡ none
  pub waiting :
      0 < s.inst_state
      → s.inst_state < 3
      → (s.boxes (session_box_name s.inst_gen) ≡ none) × (s.inst_cursor ≡ 0)
  pub filling : s.inst_state ≡ 3 → Holds h c s.inst_gen s.inst_cursor s.boxes

-- What a call leaves of the sessions that does not touch them.
pub record Same (s t : Verifier) : Type 0 where
  pub boxes : t.boxes ≡ s.boxes
  pub state : t.inst_state ≡ s.inst_state
  pub gen : t.inst_gen ≡ s.inst_gen
  pub cursor : t.inst_cursor ≡ s.inst_cursor
  pub counter : t.gen_counter ≡ s.gen_counter

-- A session that is reserved.
pub record Fresh (s t : Verifier) : Type 0 where
  pub boxes : t.boxes ≡ s.boxes
  pub state : t.inst_state ≡ 1
  pub gen : t.inst_gen ≡ t.gen_counter
  pub cursor : t.inst_cursor ≡ 0
  pub counter : t.gen_counter ≡ s.gen_counter + 1

pub append-Same :
    (sender : Bytes) (ep : ℕ) (v : Bytes) (f cur n : ℕ) (s : Verifier) {t : Verifier}
    → append_fork_row sender ep v f cur n s ≡ ok t
    → Same s t
unfolding append_fork_row
append-Same sender ep v f cur n s h = ground arith

pub Discovered-Same :
    {u : Arguments} {k : Checked} {s s' : Verifier} → Discovered u k s s' → Same s s'
Discovered-Same {s = s} (kept e) =
    subst (Same s) (sym e)
      (record { boxes = refl; state = refl; gen = refl; cursor = refl; counter = refl })
Discovered-Same {s = s} (found now near proof e) =
    subst (Same s) (sym e)
      (record { boxes = refl; state = refl; gen = refl; cursor = refl; counter = refl })

rolled-Same : (n : Bool) (s : Verifier) → Same s (if n then rollover s else s)
unfolding rollover
rolled-Same true s = record {
  boxes = refl;
  state = refl;
  gen = refl;
  cursor = refl;
  counter = refl;
}
rolled-Same false s = record {
  boxes = refl;
  state = refl;
  gen = refl;
  cursor = refl;
  counter = refl;
}

pub Applied-Same :
    {u : Arguments} {k : Checked} {s t : Verifier} {event : Option UpdateVerified}
    → Applied u k s t event
    → Same s t
Applied-Same {s = s} (stays e _) =
    subst (Same s) (sym e)
      (record { boxes = refl; state = refl; gen = refl; cursor = refl; counter = refl })
Applied-Same {k = k} {s = s} (advanced many lo e _) =
    let r = rolled-Same k.using_next s in
    subst (Same s) (sym e) (record {
      boxes = r.boxes;
      state = r.state;
      gen = r.gen;
      cursor = r.cursor;
      counter = r.counter;
    })

pub bootstrap-Fresh :
    (h : Hashes) (sender header root branch trusted : Bytes) (s : Verifier) {t : Verifier}
    → bootstrap h sender header root branch trusted s ≡ ok t
    → Fresh s t
unfolding bootstrap reserve
bootstrap-Fresh h sender header root branch trusted s e = ground arith

pub begin-Fresh : (q : ℕ) (s : Verifier) {t : Verifier} → install_begin q s ≡ ok t → Fresh s t
unfolding install_begin reserve
begin-Fresh q s e = ground arith

module _ (h : Hashes) (c : Curve) where
  pub Same-IsSound : {s t : Verifier} → Ordered t → IsSound h c s → Same s t → IsSound h c t
  Same-IsSound {s} {t} o i k = record {
    ordered = o;
    unopened = λ g above fits.
        ap (λ b. b (session_box_name g)) k.boxes ∙ i.unopened g (omega (arith, k.counter)) fits;
    waiting = λ lo hi.
        let (none_yet, zero_cursor) = i.waiting (omega (arith, k.state)) (omega (arith, k.state)) in
        (
          ap (λ b. b (session_box_name t.inst_gen)) k.boxes
              ∙ ap (λ g. s.boxes (session_box_name g)) k.gen
              ∙ none_yet,
          k.cursor ∙ zero_cursor,
        );
    filling = λ e.
        subst (λ b. Holds h c t.inst_gen t.inst_cursor b) (sym k.boxes)
          (subst (λ g. Holds h c g t.inst_cursor s.boxes) (sym k.gen)
            (subst (λ n. Holds h c s.inst_gen n s.boxes) (sym k.cursor)
              (i.filling (sym k.state ∙ e))));
  }

  pub Fresh-IsSound : {s t : Verifier} → Ordered t → IsSound h c s → Fresh s t → IsSound h c t
  Fresh-IsSound {s} {t} o i k = record {
    ordered = o;
    unopened = λ g above fits.
        ap (λ b. b (session_box_name g)) k.boxes ∙ i.unopened g (omega (arith, k.counter)) fits;
    waiting = λ lo hi. (
      ap (λ b. b (session_box_name t.inst_gen)) k.boxes
          ∙ i.unopened t.inst_gen (omega (arith, k.counter, k.gen))
              (omega (arith, k.gen, o.counter)),
      k.cursor,
    );
    filling = λ e. absurd (omega (arith, k.state));
  }
