-- ===== src/MultiNode/Files/Handles.antt =====
-- `copyFile` closes what it opened, on every path.
use mathlib.Core.Path.{subst}
use aegis_mirror.Base.{◌≡◌, ◌≢◌, ◌∙◌, sym, Bool, true, false}
use aegis_mirror.Base.Effect.{Result, ok, err, panic, exit, Call, pure, ◌>>◌, follow}
use aegis_mirror.Base.Paths.{FilePath, join_path, base_name}
use aegis_mirror.MultiNode.Sdk.{Os}
use aegis_mirror.MultiNode.Files.{transfer, copy_into, copy_file, deferred_close}

module _ {World : Type 0} (O : Os World) (dec : Discrete O.File)
    (is_open : World → O.File → Bool) where
  -- The same files are open.
  abbrev pub Same : World → World → Type 0
  Same w w' = (g : O.File) → is_open w' g ≡ is_open w g

  -- The file has been opened: it is a new one, and the others are as before.
  pub record Opened (f : O.File) (w w' : World) : Type 0 where
    pub fresh : is_open w f ≡ false
    pub others : (g : O.File) → g ≢ f → is_open w' g ≡ is_open w g

  -- A call that opens a file opens a new one if it succeeds, and none if it fails.
  abbrev pub Opens : World → Result O.File × World → Type 0
  Opens w (ok f, w') = Opened f w w' × (is_open w' f ≡ true)
  Opens w (err e, w') = Same w w'
  Opens w (panic e, w') = Same w w'
  Opens w (exit s, w') = Same w w'

  abbrev pub Keeps : {A : Type 0} → World → Result A × World → Type 0
  Keeps w (r, w') = Same w w'

  -- What the operating system does with open files: `Close` closes its own file, also where it
  -- returns an error, and no other one; on a closed file it does nothing.
  pub record TracksFiles : Type 0 where
    pub open_file : (p : FilePath) (w : World) → Opens w (O.open_file p w)
    pub create_file : (p : FilePath) (w : World) → Opens w (O.create_file p w)
    pub copy_content : (d s : O.File) (w : World) → Keeps w (O.copy_content d s w)
    pub sync_file : (f : O.File) (w : World) → Keeps w (O.sync_file f w)
    pub closed : (f : O.File) (w : World) → is_open (O.close_file f w).1 f ≡ false
    pub unclosed : (f g : O.File) (w : World) → g ≢ f → is_open (O.close_file f w).1 g ≡ is_open w g

  Same-trans : (w0 w1 w2 : World) → Same w0 w1 → Same w1 w2 → Same w0 w2
  Same-trans w0 w1 w2 h k g = k g ∙ h g

  follow-Keeps :
      {A B : Type 0} (w0 : World) (f : A → Call World B) (r : Result A × World)
      → Keeps w0 r
      → ((a : A) (w : World) → Same w0 w → Keeps w0 (f a w))
      → Keeps w0 (follow f r)
  follow-Keeps w0 f (ok a, w) h k = k a w h
  follow-Keeps w0 f (err e, w) h k = h
  follow-Keeps w0 f (panic e, w) h k = h
  follow-Keeps w0 f (exit s, w) h k = h

  follow-Opens :
      {B : Type 0} (w0 : World) (f : O.File → Call World B) (r : Result O.File × World)
      → Opens w0 r
      → ((a : O.File) (w : World) → Opened a w0 w → Keeps w0 (f a w))
      → Keeps w0 (follow f r)
  follow-Opens w0 f (ok a, w) (h, _) k = k a w h
  follow-Opens w0 f (err e, w) h k = h
  follow-Opens w0 f (panic e, w) h k = h
  follow-Opens w0 f (exit s, w) h k = h

  module _ (C : TracksFiles) where
    -- The file that was opened is closed after a call that keeps the open files.
    deferred_close-Keeps :
        {A : Type 0} (w0 : World) (f : O.File) (m : Call World A) (w : World)
        → Opened f w0 w
        → Keeps w (m w)
        → Keeps w0 (deferred_close O f m w)
    unfolding deferred_close
    deferred_close-Keeps w0 f m w o h g = elim (dec g f) [
      | yes e ↦
          subst (λ x. is_open (O.close_file f (m w).1).1 x ≡ is_open w0 x) (sym e)
            (C.closed f (m w).1 ∙ sym o.fresh)
      | no ne ↦ C.unclosed f g (m w).1 ne ∙ h g ∙ o.others g ne
    ]

    transfer-Keeps : (d f : O.File) (w : World) → Keeps w (transfer O d f w)
    unfolding transfer
    transfer-Keeps d f w =
        follow-Keeps w (λ b. O.sync_file d >> pure b) (O.copy_content d f w) (C.copy_content d f w)
          λ b w2 h2.
            follow-Keeps w (λ _. pure b) (O.sync_file d w2)
              (Same-trans w w2 _ h2 (C.sync_file d w2)) λ u w3 h3. h3

    copy_into-Keeps : (f : O.File) (dst : FilePath) (w : World) → Keeps w (copy_into O f dst w)
    unfolding copy_into
    copy_into-Keeps f dst w =
        follow-Opens w (λ d. deferred_close O d (transfer O d f)) (O.create_file dst w)
          (C.create_file dst w)
          λ d w1 o. deferred_close-Keeps w d (transfer O d f) w1 o (transfer-Keeps d f w1)

    -- However `copyFile` ends, the files that are open are those that were open before: the source and
    -- the destination are closed on success, and whatever was opened is closed when a later call fails
    -- or panics.
    pub is_open-copy_file :
        (src dst : FilePath) (w : World) (g : O.File)
        → is_open (copy_file O src dst w).1 g ≡ is_open w g
    unfolding copy_file
    is_open-copy_file src dst w =
        let rest = λ (f : O.File). copy_into O f (join_path dst (base_name src)) in
        follow-Opens w (λ f. deferred_close O f (rest f)) (O.open_file src w) (C.open_file src w)
          λ f w1 o.
            deferred_close-Keeps w f (rest f) w1 o
              (copy_into-Keeps f (join_path dst (base_name src)) w1)
