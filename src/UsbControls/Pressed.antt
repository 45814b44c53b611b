-- ===== src/UsbControls/Pressed.antt =====
-- What the host sees of the keys of firmware/radio/components/ull_usb/usb_controls.c.
use mathlib.Core.List.{append_assoc, append-nil}
use open_ull_receiver.Base.{
  ℕ, ◌≡◌, ◌≤◌, refl, sym, ap, ◌∙◌, Bool, true, false, not, ◌||◌, none, some, Option, List, [], ◌∷◌,
  ◌++◌, length, length-append, ltb, if◌then◌else◌, arith, Bool-cases, inl, inr,
}
use open_ull_receiver.UsbControls.{
  Controls, Moment, controls_init, queue_length, enqueue, press, service,
}

-- A key and its release, for each of some usages.
unfoldable pub pressed : List ℕ → List ℕ
pressed [] = []
pressed (usage ∷ rest) = usage ∷ 0 ∷ pressed rest

pressed-append :
    (xs : List ℕ) (usage : ℕ) → pressed (xs ++ (usage ∷ [])) ≡ pressed xs ++ (usage ∷ 0 ∷ [])
unfolding pressed
pressed-append [] usage = refl
pressed-append (x ∷ xs) usage = ap (λ (l : List ℕ). x ∷ 0 ∷ l) (pressed-append xs usage)

abbrev pub kept : Bool → ℕ → List ℕ
kept true usage = usage ∷ []
kept false usage = []

abbrev pub reported : Option ℕ → List ℕ
reported none = []
reported (some usage) = usage ∷ []

-- Any calls from the start: the usages that were accepted, and the reports that were sent.
pub data Run : Controls → List ℕ → List ℕ → Type 0 where
  started : Run controls_init [] []
  enqueued :
      (s : Controls) (accepted reports : List ℕ) (usage : ℕ)
      → Run s accepted reports
      → Run (enqueue s usage).0 (accepted ++ kept (enqueue s usage).1 usage) reports
  serviced :
      (s : Controls) (accepted reports : List ℕ) (t : Moment)
      → Run s accepted reports
      → Run (service s t).0 accepted (reports ++ reported (service s t).1)

-- The release that is still due.
abbrev pub due : Bool → List ℕ
due true = 0 ∷ []
due false = []

record Told (s : Controls) (accepted reports : List ℕ) : Type 0 where
  sent : List ℕ
  order : accepted ≡ sent ++ s.pending
  keys : reports ++ due s.release_pending ≡ pressed sent
  room : length s.pending ≤ queue_length

idle-Told :
    {s : Controls} {accepted reports : List ℕ}
    → Told s accepted reports
    → Told s accepted (reports ++ [])
idle-Told {s} {accepted} {reports} v = record {
  sent = v.sent;
  order = v.order;
  keys = ap (λ (l : List ℕ). l ++ due s.release_pending) (append-nil reports) ∙ v.keys;
  room = v.room;
}

enqueue-Told :
    (s : Controls) (accepted reports : List ℕ) (usage : ℕ)
    → Told s accepted reports
    → Told (enqueue s usage).0 (accepted ++ kept (enqueue s usage).1 usage) reports
unfolding enqueue
enqueue-Told s accepted reports usage v = elim (Bool-cases (ltb (length s.pending) queue_length)) [
  | inl e ↦
      let size = length-append s.pending (usage ∷ []) in
      rw e (record {
        sent = v.sent;
        order =
            ap (λ (l : List ℕ). l ++ (usage ∷ [])) v.order
            ∙ append_assoc v.sent s.pending (usage ∷ []);
        keys = v.keys;
        room = ground (arith, size);
      })
  | inr e ↦ rw e (record {
    sent = v.sent;
    order = append-nil accepted ∙ v.order;
    keys = v.keys;
    room = v.room;
  })
]

press-Told :
    (s : Controls) (accepted reports : List ℕ) (t : Moment) (queue : List ℕ)
    → s.pending ≡ queue
    → s.release_pending ≡ false
    → Told s accepted reports
    → Told (press s t queue).0 accepted (reports ++ reported (press s t queue).1)
unfolding press
press-Told s accepted reports t [] e f v = idle-Told v
press-Told s accepted reports t (usage ∷ rest) e f v = elim (Bool-cases t.accepts) [
  | inl ok ↦
      let whole : reports ≡ pressed v.sent =
        sym (append-nil reports) ∙ ap (λ (b : Bool). reports ++ due b) (sym f) ∙ v.keys in
      rw ok (record {
        sent = v.sent ++ (usage ∷ []);
        order =
            v.order
            ∙ ap (λ (l : List ℕ). v.sent ++ l) e
            ∙ sym (append_assoc v.sent (usage ∷ []) rest);
        keys =
            append_assoc reports (usage ∷ []) (0 ∷ [])
            ∙ ap (λ (l : List ℕ). l ++ (usage ∷ 0 ∷ [])) whole
            ∙ sym (pressed-append v.sent usage);
        room = let size = ap (λ (l : List ℕ). length l) e in omega (arith, size, v.room);
      })
  | inr refused ↦ rw refused (idle-Told v)
]

released-Told :
    (s : Controls) (accepted reports : List ℕ)
    → s.release_pending ≡ true
    → Told s accepted reports
    → Told (record s { release_pending = false }) accepted (reports ++ (0 ∷ []))
released-Told s accepted reports e v = record {
  sent = v.sent;
  order = v.order;
  keys = append-nil (reports ++ (0 ∷ [])) ∙ ap (λ (b : Bool). reports ++ due b) (sym e) ∙ v.keys;
  room = v.room;
}

record ServiceTold (accepted reports : List ℕ) (r : Controls × Option ℕ) : Type 0 where
  told : Told r.0 accepted (reports ++ reported r.1)

branch_told :
    {accepted reports : List ℕ} {x y : Controls × Option ℕ} (c : Bool)
    → (c ≡ true → ServiceTold accepted reports x)
    → (c ≡ false → ServiceTold accepted reports y)
    → ServiceTold accepted reports (if c then x else y)
branch_told true f g = f refl
branch_told false f g = g refl

service-Told :
    (s : Controls) (accepted reports : List ℕ) (t : Moment)
    → Told s accepted reports
    → Told (service s t).0 accepted (reports ++ reported (service s t).1)
unfolding service
service-Told s accepted reports t v =
    let same : ServiceTold accepted reports (s, none) = record { told = idle-Told v } in
    (branch_told (not t.ready) (λ _. same)
      (λ _.
        branch_told (not s.release_pending)
          (λ e. record { told = press-Told s accepted reports t s.pending refl (ground arith) v })
          (λ e.
            branch_told (ltb t.now s.release_due || not t.accepts) (λ _. same)
              (λ _. record { told = released-Told s accepted reports (ground arith) v })))).told

Run-Told :
    (s : Controls) (accepted reports : List ℕ) → Run s accepted reports → Told s accepted reports
unfolding pressed
Run-Told _ _ _ started = record { sent = []; order = refl; keys = refl; room = omega arith }
Run-Told _ _ _ (enqueued s accepted reports usage r) =
    enqueue-Told s accepted reports usage (Run-Told s accepted reports r)
Run-Told _ _ _ (serviced s accepted reports t r) =
    service-Told s accepted reports t (Run-Told s accepted reports r)

-- In every run of ull_usb_controls_enqueue and ull_usb_controls_service, whatever TinyUSB answers: the accepted
-- usages are those that were sent, in their order, followed by the at most 32 that are queued, and the reports
-- that the host has seen, with the release that may still be due, are exactly a press and a release for each
-- usage that was sent.
pub Run-pressed :
    (s : Controls) (accepted reports : List ℕ)
    → Run s accepted reports
    → (sent : List ℕ) × (accepted ≡ sent ++ s.pending)
      × (reports ++ due s.release_pending ≡ pressed sent)
      × (length s.pending ≤ queue_length)
Run-pressed s accepted reports r =
    let v = Run-Told s accepted reports r in (v.sent, v.order, v.keys, v.room)
