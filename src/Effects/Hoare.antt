-- ===== src/Effects/Hoare.antt =====
-- What an action makes of the database: from `P` it leads to `Q` of its result, or to `E` if it raises.
use validation_node.Prelude.{ℕ, ◌≡◌, refl, sym, subst, ◌∙◌, Bool, true, false, List, if◌then◌else◌}
use validation_node.Database.Schema.{Db, Error, Result, ok, raise}
use validation_node.Node.{Node}
use validation_node.Effects.{
  World, M, Uninstalled, return, yield, throw, attempt, ask, read_db, change_db, access_db,
  change_node, uninstall, resume, ◌>>=◌,
}

abbrev pub Post : {A : Type 0} → (A → Db → Type 0) → (Db → Type 0) → Result A → Db → Type 0
Post Q E (ok a) db = Q a db
Post Q E (raise e) db = E db

pub record Hoare (P : Db → Type 0) {A : Type 0} (Q : A → Db → Type 0) (E : Db → Type 0) (m : M A)
    : Type 0 where
  pub after : (w : World) → P w.node.db → Post Q E (m w).0 (m w).1.node.db

-- The action keeps `I`, also when it raises.
abbrev pub Keeps : (Db → Type 0) → {A : Type 0} → M A → Type 0
Keeps I {A} m = Hoare I (λ (a : A). I) I m

module _ {A B : Type 0} {P : Db → Type 0} {R : A → Db → Type 0} {Q : B → Db → Type 0}
    {E : Db → Type 0} where
  pub Hoare-bind :
      (m : M A) (f : A → M B)
      → Hoare P R E m
      → ((a : A) → Hoare (R a) Q E (f a))
      → Hoare P Q E (m >>= f)
  unfolding ◌>>=◌
  Hoare-bind m f hm hf = record { after = λ w p. go (m w).0 (m w).1 (hm.after w p) }
    where
      go :
          (r : Result A) (w : World)
          → Post R E r w.node.db
          → Post Q E (resume r f w).0 (resume r f w).1.node.db
      go (ok a) w p = (hf a).after w p
      go (raise e) w p = p

module _ {A : Type 0} {P : Db → Type 0} {Q : A → Db → Type 0} {E : Db → Type 0} where
  pub Hoare-return : (a : A) → ((db : Db) → P db → Q a db) → Hoare P Q E (return a)
  unfolding return
  Hoare-return a h = record { after = λ w p. h w.node.db p }

  pub Hoare-yield :
      (r : Result A)
      → ((a : A) (db : Db) → r ≡ ok a → P db → Q a db)
      → ((db : Db) → P db → E db)
      → Hoare P Q E (yield r)
  unfolding yield
  Hoare-yield (ok a) h k = record { after = λ w p. h a w.node.db refl p }
  Hoare-yield (raise e) h k = record { after = λ w p. k w.node.db p }

  pub Hoare-throw : (e : Error) → ((db : Db) → P db → E db) → Hoare P Q E (throw e)
  unfolding throw
  Hoare-throw e k = record { after = λ w p. k w.node.db p }

  pub Hoare-read : (f : Db → A) → ((db : Db) → P db → Q (f db) db) → Hoare P Q E (read_db f)
  unfolding read_db
  Hoare-read f h = record { after = λ w p. h w.node.db p }

  pub Hoare-access :
      (f : Db → A × Db) → ((db : Db) → P db → Q (f db).0 (f db).1) → Hoare P Q E (access_db f)
  unfolding access_db
  Hoare-access f h = record { after = λ w p. h w.node.db p }

  pub Hoare-if :
      (b : Bool) (m n : M A)
      → (b ≡ true → Hoare P Q E m)
      → (b ≡ false → Hoare P Q E n)
      → Hoare P Q E (if b then m else n)
  Hoare-if true m n hm hn = hm refl
  Hoare-if false m n hm hn = hn refl

  pub Hoare-mono :
      {P' : Db → Type 0} {Q' : A → Db → Type 0} {m : M A}
      → Hoare P Q E m
      → ((db : Db) → P' db → P db)
      → ((a : A) (db : Db) → Q a db → Q' a db)
      → Hoare P' Q' E m
  Hoare-mono {P'} {Q'} {m} h before after = record {
    after = λ w p. go (m w).0 (m w).1 (h.after w (before w.node.db p));
  }
    where
      go : (r : Result A) (w : World) → Post Q E r w.node.db → Post Q' E r w.node.db
      go (ok a) w p = after a w.node.db p
      go (raise e) w p = p

module _ {A : Type 0} {P E : Db → Type 0} where
  pub Hoare-ask :
      (answer : ℕ → Result A) → ((db : Db) → P db → E db) → Hoare P (λ (a : A). P) E (ask answer)
  unfolding ask
  Hoare-ask answer k = record { after = λ w p. go (answer w.calls) w.node.db p }
    where
      go : (r : Result A) (db : Db) → P db → Post (λ (a : A). P) E r db
      go (ok a) db p = p
      go (raise e) db p = k db p

module _ {A : Type 0} {P : Db → Type 0} {Q : A → Db → Type 0} {E E' : Db → Type 0} where
  pub Hoare-attempt : (m : M A) → Hoare P Q E m → Hoare P (λ r. Post Q E r) E' (attempt m)
  unfolding attempt
  Hoare-attempt m h = record { after = λ w p. h.after w p }

module _ {A : Type 0} {I : Db → Type 0} where
  -- Whatever it raises, a caught action keeps what it keeps.
  pub Keeps-attempt : (m : M A) → Keeps I m → Keeps I (attempt m)
  unfolding attempt
  Keeps-attempt m h = record { after = λ w p. go (m w).0 (m w).1.node.db (h.after w p) }
    where
      go : (r : Result A) (db : Db) → Post (λ (a : A). I) I r db → I db
      go (ok a) db p = p
      go (raise e) db p = p

module _ {P Q E : Db → Type 0} where
  pub Hoare-change :
      (f : Db → Db) → ((db : Db) → P db → Q (f db)) → Hoare P (λ _. Q) E (change_db f)
  unfolding change_db
  Hoare-change f h = record { after = λ w p. h w.node.db p }

module _ {P E : Db → Type 0} where
  pub Hoare-change_node :
      (f : Node → Node) → ((n : Node) → (f n).db ≡ n.db) → Hoare P (λ _. P) E (change_node f)
  unfolding change_node
  Hoare-change_node f h = record { after = λ w p. rw (h w.node) p }

  pub Hoare-uninstall : (us : List Uninstalled) → Hoare P (λ _. P) E (uninstall us)
  unfolding uninstall
  Hoare-uninstall us = record { after = λ w p. p }

module _ {A : Type 0} {P : Db → Type 0} {Q : A → Db → Type 0} {E : Db → Type 0} where
  -- What does not depend on the database is known from then on.
  pub Hoare-fact : {F : Type 0} {m : M A} → (F → Hoare P Q E m) → Hoare (λ db. P db × F) Q E m
  Hoare-fact h = record { after = λ w p. (h p.1).after w p.0 }

-- The action leaves the database alone.
pub record IsSilent {A : Type 0} (m : M A) : Type 0 where
  pub same : (w : World) → (m w).1.node.db ≡ w.node.db

module _ {A : Type 0} where
  pub Hoare-silent :
      {P E : Db → Type 0} (m : M A)
      → IsSilent m
      → ((db : Db) → P db → E db)
      → Hoare P (λ (a : A). P) E m
  Hoare-silent {P} {E} m silent k = record {
    after = λ w p. go (m w).0 (m w).1.node.db (subst P (sym (silent.same w)) p);
  }
    where
      go : (r : Result A) (db : Db) → P db → Post (λ (a : A). P) E r db
      go (ok a) db p = p
      go (raise e) db p = k db p

  -- Besides, its result is known.
  pub Hoare-known :
      {P E : Db → Type 0} (m : M A) (a : A)
      → IsSilent m
      → ((w : World) → (m w).0 ≡ ok a)
      → Hoare P (λ r db. P db × (r ≡ a)) E m
  Hoare-known {P} {E} m a silent known = record {
    after = λ w p.
        subst (λ r. Post (λ r db. P db × (r ≡ a)) E r (m w).1.node.db) (sym (known w))
          (subst P (sym (silent.same w)) p, refl);
  }

  pub ask-IsSilent : (answer : ℕ → Result A) → IsSilent (ask answer)
  unfolding ask
  ask-IsSilent answer = record { same = λ w. refl }

  pub return-IsSilent : (a : A) → IsSilent (return a)
  unfolding return
  return-IsSilent a = record { same = λ w. refl }

  pub throw-IsSilent : (e : Error) → IsSilent (throw {A = A} e)
  unfolding throw
  throw-IsSilent e = record { same = λ w. refl }

  pub read-IsSilent : (f : Db → A) → IsSilent (read_db f)
  unfolding read_db
  read-IsSilent f = record { same = λ w. refl }

  pub yield-IsSilent : (r : Result A) → IsSilent (yield r)
  unfolding yield
  yield-IsSilent r = record { same = λ w. refl }

  pub attempt-IsSilent : (m : M A) → IsSilent m → IsSilent (attempt m)
  unfolding attempt
  attempt-IsSilent m h = record { same = λ w. h.same w }

module _ {A B : Type 0} where
  pub bind-IsSilent :
      (m : M A) (f : A → M B) → IsSilent m → ((a : A) → IsSilent (f a)) → IsSilent (m >>= f)
  unfolding ◌>>=◌
  bind-IsSilent m f hm hf = record { same = λ w. go (m w).0 (m w).1 ∙ hm.same w }
    where
      go : (r : Result A) (w : World) → (resume r f w).1.node.db ≡ w.node.db
      go (ok a) w = (hf a).same w
      go (raise e) w = refl

  -- To keep a property through one action and the rest.
  pub Keeps-bind :
      {I : Db → Type 0} (m : M A) (f : A → M B)
      → Keeps I m
      → ((a : A) → Keeps I (f a))
      → Keeps I (m >>= f)
  Keeps-bind m f hm hf = Hoare-bind m f hm hf

pub change_node-IsSilent :
    (f : Node → Node) → ((n : Node) → (f n).db ≡ n.db) → IsSilent (change_node f)
unfolding change_node
change_node-IsSilent f h = record { same = λ w. h w.node }

pub uninstall-IsSilent : (us : List Uninstalled) → IsSilent (uninstall us)
unfolding uninstall
uninstall-IsSilent us = record { same = λ w. refl }
