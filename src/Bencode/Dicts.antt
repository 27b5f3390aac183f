-- ===== src/Bencode/Dicts.antt =====
-- Dicts that are built key by key in ascending order.
use lif.Common.{Bool, true, false, Bytes, bytes_eq, if◌then◌else◌, ◌≡◌, refl, ap, arith}
use lif.Bencode.Values.{Value, Entries, no_entries, entry, bytes_key, text_key, other_key, put}
use lif.Bencode.Wire.{above, lt→ne, and-left, and-right}

abbrev pub append_entries : Entries → Entries → Entries
append_entries no_entries fs = fs
append_entries (entry k v es) fs = entry k v (append_entries es fs)

unfoldable pub absent : Bytes → Entries → Bool
absent k no_entries = true
absent k (entry (bytes_key j) v es) = if bytes_eq j k then false else absent k es
absent k (entry (text_key t) v es) = absent k es
absent k (entry other_key v es) = absent k es

pub put-absent :
    (k : Bytes) (v : Value) (es : Entries)
    → absent k es ≡ true
    → put k v es ≡ append_entries es (entry (bytes_key k) v no_entries)
unfolding absent put
put-absent k v no_entries h = refl
put-absent k v (entry (bytes_key j) w es) h = ground (arith, put-absent k v es)
put-absent k v (entry (text_key t) w es) h = ap (λ l. entry (text_key t) w l) (put-absent k v es h)
put-absent k v (entry other_key w es) h = ap (λ l. entry other_key w l) (put-absent k v es h)

absent-append :
    (k j : Bytes) (v : Value) (es : Entries)
    → absent k es ≡ true
    → bytes_eq j k ≡ false
    → absent k (append_entries es (entry (bytes_key j) v no_entries)) ≡ true
unfolding absent
absent-append k j v no_entries h d = rw d
absent-append k j v (entry (bytes_key i) w es) h d = ground (arith, absent-append k j v es)
absent-append k j v (entry (text_key t) w es) h d = absent-append k j v es h d
absent-append k j v (entry other_key w es) h d = absent-append k j v es h d

-- No key of `es` is in `done`.
abbrev pub AllAbsent : Entries → Entries → Type 0
AllAbsent done no_entries = Unit
AllAbsent done (entry (bytes_key k) v es) = (absent k done ≡ true) × AllAbsent done es
AllAbsent done (entry (text_key t) v es) = Unit
AllAbsent done (entry other_key v es) = Unit

pub AllAbsent-append :
    (k : Bytes) (w : Value) (done es : Entries)
    → above k es ≡ true
    → AllAbsent done es
    → AllAbsent (append_entries done (entry (bytes_key k) w no_entries)) es
unfolding above
AllAbsent-append k w done no_entries a h = tt
AllAbsent-append k w done (entry (bytes_key j) v es) a h = (
  absent-append j k w done h.0 (lt→ne k j (and-left _ _ a)),
  AllAbsent-append k w done es (and-right _ _ a) h.1,
)
AllAbsent-append k w done (entry (text_key t) v es) a h = tt
AllAbsent-append k w done (entry other_key v es) a h = tt

pub AllAbsent-nil : (es : Entries) → AllAbsent no_entries es
unfolding absent
AllAbsent-nil no_entries = tt
AllAbsent-nil (entry (bytes_key k) v es) = (refl, AllAbsent-nil es)
AllAbsent-nil (entry (text_key t) v es) = tt
AllAbsent-nil (entry other_key v es) = tt

pub append_entries_assoc :
    (es fs gs : Entries)
    → append_entries (append_entries es fs) gs ≡ append_entries es (append_entries fs gs)
append_entries_assoc no_entries fs gs = refl
append_entries_assoc (entry k v es) fs gs = ap (λ l. entry k v l) (append_entries_assoc es fs gs)

pub append_entries-nil : (es : Entries) → append_entries es no_entries ≡ es
append_entries-nil no_entries = refl
append_entries-nil (entry k v es) = ap (λ l. entry k v l) (append_entries-nil es)
