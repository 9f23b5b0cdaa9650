-- ===== src/Data/Connecting/Sides.antt =====
-- pftp/data_handler.go: what holds of one side of a transfer and of the two beside each other.
use pftp.Base.{Bool, true, false, not, ◌&&◌, ◌≡◌, refl, arith}
use pftp.Data.Connecting.{
  Part, held_back, starting, reaching, telling, putting, checking, shaking, wrapping, timing,
  failing, ended, failed, skipped, Side, close_side, Move, puts, lacks, aborts, checks, fails,
  shakes, wraps, times, Opening, refuses, listens, dials, unresolved, is_done,
}

abbrev pub agree : Bool → Bool → Bool
agree true b = b
agree false b = not b

-- a side with its connection set, on a handler that is closed or open
abbrev pub set : Bool → Bool → Bool → Bool → Bool
set true k n l = agree k l
set false k n l = k && (n && not l)

-- The connection of a side, from where its goroutine is: whether it is open, is in the handler, and was
-- put there late. The copying may break the connection of a side that has ended its set-up.
abbrev pub sound : Bool → Part → Bool → Bool → Bool → Bool
sound c held_back k n l = not k && (not n && not l)
sound c starting k n l = not k && (not n && not l)
sound c reaching k n l = not k && (not n && not l)
sound c (telling b) k n l = agree k (not b) && (not n && not l)
sound c putting k n l = k && (not n && not l)
sound c skipped k n l = not k && (not n && not l)
sound c failed k n l = c && agree k l
sound true failing k n l = agree k l
sound false failing k n l = agree k n && not l
sound false ended k n l = n && not l
sound c _ k n l = set c k n l

abbrev pub IsSound : Bool → Side → Type 0
IsSound c s = sound c s.part s.socket s.conn s.late ≡ true

abbrev pub is_held : Part → Bool
is_held held_back = true
is_held _ = false

-- an origin that has been told that the client is connected
abbrev pub is_free : Part → Bool
is_free held_back = false
is_free (telling _) = false
is_free skipped = false
is_free _ = true

-- an origin at all
abbrev pub is_origin : Part → Bool
is_origin (telling _) = false
is_origin _ = true

-- where the goroutine of the origin can be beside that of the client
abbrev pub paired : Part → Part → Bool
paired held_back q = false
paired skipped q = false
paired starting q = is_held q
paired reaching q = is_held q
paired (telling _) q = is_held q
paired failing q = is_origin q
paired failed q = is_origin q
paired _ q = is_free q

pub Move-IsSound : {t c : Bool} {s z : Side} → Move t c s z → IsSound c s → IsSound c z
Move-IsSound (puts e) h = ground arith
Move-IsSound (lacks e) h = ground arith
Move-IsSound (aborts e k) h = ground arith
Move-IsSound (checks e k) h = ground arith
Move-IsSound (fails e) h = ground arith
Move-IsSound (shakes e) h = ground arith
Move-IsSound (wraps e) h = ground arith
Move-IsSound (times e) h = ground arith

pub Opening-IsSound : {l c : Bool} {s z : Side} → Opening l c s z → IsSound c s → IsSound c z
Opening-IsSound (refuses e k m) h = ground arith
Opening-IsSound (listens e k m) h = ground arith
Opening-IsSound (dials e k) h = ground arith
Opening-IsSound (unresolved e k) h = ground arith

sound-close :
    (p : Part) (k n l : Bool)
    → sound false p k n l ≡ true
    → sound true p (k && not n) false l ≡ true
sound-close held_back k n l h = ground arith
sound-close starting k n l h = ground arith
sound-close reaching k n l h = ground arith
sound-close (telling b) k n l h = ground arith
sound-close putting k n l h = ground arith
sound-close checking k n l h = ground arith
sound-close shaking k n l h = ground arith
sound-close wrapping k n l h = ground arith
sound-close timing k n l h = ground arith
sound-close failing k n l h = ground arith
sound-close ended k n l h = ground arith
sound-close failed k n l h = ground arith
sound-close skipped k n l h = ground arith

pub close_side-IsSound : (c : Bool) (s : Side) → IsSound c s → IsSound true (close_side c s)
close_side-IsSound true s h = h
close_side-IsSound false s h = sound-close s.part s.socket s.conn s.late h

pub close_side-part : (c : Bool) (s : Side) → (close_side c s).part ≡ s.part
close_side-part true s = refl
close_side-part false s = refl

pub close_side-failed :
    (c : Bool) (s : Side)
    → s.part ≡ failing
    → IsSound c s
    → IsSound true (close_side c (record s { part = failed }))
close_side-failed true s e h = ground arith
close_side-failed false s e h = ground arith

pub Move-busy : {t c : Bool} {s z : Side} → Move t c s z → is_done s.part ≡ false
Move-busy (puts e) = ground arith
Move-busy (lacks e) = ground arith
Move-busy (aborts e k) = ground arith
Move-busy (checks e k) = ground arith
Move-busy (fails e) = ground arith
Move-busy (shakes e) = ground arith
Move-busy (wraps e) = ground arith
Move-busy (times e) = ground arith

pub Opening-starting : {l c : Bool} {s z : Side} → Opening l c s z → s.part ≡ starting
Opening-starting (refuses e k m) = e
Opening-starting (listens e k m) = e
Opening-starting (dials e k) = e
Opening-starting (unresolved e k) = e

pub is_free-is_origin : (q : Part) → is_free q ≡ true → is_origin q ≡ true
is_free-is_origin held_back h = ground arith
is_free-is_origin starting h = ground arith
is_free-is_origin reaching h = ground arith
is_free-is_origin (telling b) h = ground arith
is_free-is_origin putting h = ground arith
is_free-is_origin checking h = ground arith
is_free-is_origin shaking h = ground arith
is_free-is_origin wrapping h = ground arith
is_free-is_origin timing h = ground arith
is_free-is_origin failing h = ground arith
is_free-is_origin ended h = ground arith
is_free-is_origin failed h = ground arith
is_free-is_origin skipped h = ground arith

pub is_held-is_origin : (q : Part) → is_held q ≡ true → is_origin q ≡ true
is_held-is_origin held_back h = ground arith
is_held-is_origin starting h = ground arith
is_held-is_origin reaching h = ground arith
is_held-is_origin (telling b) h = ground arith
is_held-is_origin putting h = ground arith
is_held-is_origin checking h = ground arith
is_held-is_origin shaking h = ground arith
is_held-is_origin wrapping h = ground arith
is_held-is_origin timing h = ground arith
is_held-is_origin failing h = ground arith
is_held-is_origin ended h = ground arith
is_held-is_origin failed h = ground arith
is_held-is_origin skipped h = ground arith

-- the other goroutine need not mind
pub Move-paired :
    {t c : Bool} {s z : Side} (q : Part)
    → Move t c s z
    → paired s.part q ≡ true
    → paired z.part q ≡ true
Move-paired {t = true} q (puts e) h = ground arith
Move-paired {t = false} q (puts e) h = ground arith
Move-paired q (lacks e) h = ground (arith, is_free-is_origin q)
Move-paired q (aborts e k) h = ground (arith, is_free-is_origin q)
Move-paired q (checks e k) h = ground arith
Move-paired q (fails e) h = ground (arith, is_free-is_origin q)
Move-paired q (shakes e) h = ground arith
Move-paired q (wraps e) h = ground arith
Move-paired q (times e) h = ground arith

pub Opening-paired :
    {l c : Bool} {s z : Side} (q : Part)
    → Opening l c s z
    → is_held q ≡ true
    → paired z.part q ≡ true
Opening-paired q (refuses e k m) h = ground (arith, is_held-is_origin q)
Opening-paired q (listens e k m) h = ground arith
Opening-paired q (dials e k) h = ground arith
Opening-paired q (unresolved e k) h = ground (arith, is_held-is_origin q)

pub Move-is_free :
    {t c : Bool} {s z : Side} → Move t c s z → (is_held s.part ≡ false) × (is_free z.part ≡ true)
Move-is_free {t = true} (puts e) = ground arith
Move-is_free {t = false} (puts e) = ground arith
Move-is_free (lacks e) = ground arith
Move-is_free (aborts e k) = ground arith
Move-is_free (checks e k) = ground arith
Move-is_free (fails e) = ground arith
Move-is_free (shakes e) = ground arith
Move-is_free (wraps e) = ground arith
Move-is_free (times e) = ground arith

pub Opening-is_free : {l c : Bool} {s z : Side} → Opening l c s z → is_free z.part ≡ true
Opening-is_free (refuses e k m) = refl
Opening-is_free (listens e k m) = refl
Opening-is_free (dials e k) = refl
Opening-is_free (unresolved e k) = refl

pub paired-free :
    (p q b : Part) → is_held q ≡ false → is_free b ≡ true → paired p q ≡ true → paired p b ≡ true
paired-free held_back q b k f h = ground (arith, is_free-is_origin b)
paired-free starting q b k f h = ground (arith, is_free-is_origin b)
paired-free reaching q b k f h = ground (arith, is_free-is_origin b)
paired-free (telling a) q b k f h = ground (arith, is_free-is_origin b)
paired-free putting q b k f h = ground (arith, is_free-is_origin b)
paired-free checking q b k f h = ground (arith, is_free-is_origin b)
paired-free shaking q b k f h = ground (arith, is_free-is_origin b)
paired-free wrapping q b k f h = ground (arith, is_free-is_origin b)
paired-free timing q b k f h = ground (arith, is_free-is_origin b)
paired-free failing q b k f h = ground (arith, is_free-is_origin b)
paired-free ended q b k f h = ground (arith, is_free-is_origin b)
paired-free failed q b k f h = ground (arith, is_free-is_origin b)
paired-free skipped q b k f h = ground (arith, is_free-is_origin b)
