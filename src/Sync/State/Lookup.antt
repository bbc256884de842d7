-- ===== src/Sync/State/Lookup.antt =====
-- What `by_local` and `by_remote` find after `with_link` and `without`.
use jornada_link.Common.{
  String, ◌≡◌, ◌≢◌, refl, ◌∙◌, Bool, true, false, Option, none, some, List, [], ◌∷◌, ◌++◌, keep,
  arith,
}
use jornada_link.Sync.State.{Link, SyncState, apart, with_link, is_id, without, by_local, by_remote}

by_local-append_self :
    (links : List Link) (l : Link) → by_local (links ++ (l ∷ [])) l.local_id ≡ some l
unfolding by_local
by_local-append_self [] l = ground arith
by_local-append_self (k ∷ links) l = ground (arith, by_local-append_self links l)

by_remote-append_self :
    (links : List Link) (l : Link) → by_remote (links ++ (l ∷ [])) l.remote_id ≡ some l
unfolding by_remote
by_remote-append_self [] l = ground arith
by_remote-append_self (k ∷ links) l = ground (arith, by_remote-append_self links l)

by_local-append_ne :
    (links : List Link) (l : Link) (k : String)
    → l.local_id ≢ k
    → by_local (links ++ (l ∷ [])) k ≡ by_local links k
unfolding by_local
by_local-append_ne [] l k h = ground arith
by_local-append_ne (j ∷ links) l k h = ground (arith, by_local-append_ne links l k h)

-- A link that is found has the id that was looked for.
by_local-id :
    (links : List Link) (k : String) (l : Link) → by_local links k ≡ some l → l.local_id ≡ k
unfolding by_local
by_local-id [] k l h = cc
by_local-id (j ∷ links) k l h = ground (arith, by_local-id links k l)

-- A filter that keeps the one link that is found keeps it findable.
by_local-keep-none :
    (p : Link → Bool) (links : List Link) (k : String)
    → by_local links k ≡ none
    → by_local (keep p links) k ≡ none
unfolding by_local keep
by_local-keep-none p [] k h = refl
by_local-keep-none p (j ∷ links) k h = ground (arith, by_local-keep-none p links k)

by_local-keep :
    (p : Link → Bool) (links : List Link) (k : String) (l : Link)
    → by_local links k ≡ some l
    → p l ≡ true
    → by_local (keep p links) k ≡ some l
unfolding by_local keep
by_local-keep p [] k l h e = cc
by_local-keep p (j ∷ links) k l h e =
    ground (arith, by_local-keep p links k l, by_local-keep-none p links k)

-- After `with_link` both ends of the new link find it.
pub with_link-found :
    (s : SyncState) (link : Link)
    → (by_local (with_link s link).links link.local_id ≡ some link)
      × (by_remote (with_link s link).links link.remote_id ≡ some link)
unfolding with_link
with_link-found s link = (
  by_local-append_self (keep (apart link) s.links) link,
  by_remote-append_self (keep (apart link) s.links) link,
)

-- `with_link` leaves every link findable by its device id that shares no end with the new one.
pub by_local-with_link-apart :
    (s : SyncState) (link l : Link) (k : String)
    → by_local s.links k ≡ some l
    → apart link l ≡ true
    → by_local (with_link s link).links k ≡ some l
unfolding with_link
by_local-with_link-apart s link l k h e =
    by_local-append_ne (keep (apart link) s.links) link k
      (λ same. ground (arith, by_local-id s.links k l h))
    ∙ by_local-keep (apart link) s.links k l h e

by_local-keep_out :
    (p : Link → Bool) (links : List Link) (k : String)
    → ((l : Link) → l.local_id ≡ k → p l ≡ false)
    → by_local (keep p links) k ≡ none
unfolding by_local keep
by_local-keep_out p [] k h = refl
by_local-keep_out p (j ∷ links) k h = ground (arith, by_local-keep_out p links k h, h j)

-- `without` of a device id leaves no link for that id.
pub by_local-without :
    (s : SyncState) (r : Option String) (k : String)
    → by_local (without s (some k) r).links k ≡ none
unfolding without
by_local-without s r k = by_local-keep_out _ s.links k (λ l e. ground arith)

-- `without` leaves a link findable of which neither end is named.
pub by_local-without_ne :
    (s : SyncState) (l r : Option String) (k : String) (found : Link)
    → by_local s.links k ≡ some found
    → is_id l found.local_id ≡ false
    → is_id r found.remote_id ≡ false
    → by_local (without s l r).links k ≡ some found
unfolding without
by_local-without_ne s l r k found h el er = by_local-keep _ s.links k found h (ground arith)
