-- ===== src/Updater/Check.antt =====
-- What `check_for_update` and `auto_update_check` of backend/cpip_updater.py find.
use minima_pi_net_os.Prelude.{
  str_eq, nat_eq, ℕ, ◌+◌, ◌≤◌, ◌<◌, ◌≡◌, refl, sym, ap, ◌∙◌, Str, codes, Bool, true, false, ◌&&◌,
  Option, none, some, List, [], ◌∷◌, ok, raise, arith, if-both, Result-cases, bind-ok, ok-injective,
  str_beq, attribute_error, inl, inr, if◌then◌else◌,
}
use minima_pi_net_os.Prelude.Int.{pos, ◌-ℤ◌, ltb_ℤ}
use minima_pi_net_os.Json.{
  Value, null, bool, int, float, str, arr, obj, Items, cons, Fields, get, is_falsy,
}
use minima_pi_net_os.Updater.{
  World, Disk, UpdateInfo, parse_version, version_lt, tag_name_of, member_or_empty, info_of,
  info_of_tag, with_tag, without_tags, saved, save_update_state, load_update_state, info_to_dict,
  check_for_update, last_checked_of,
}
use minima_pi_net_os.Updater.Application.{is_due, should_auto_check, auto_due, auto_update_check}
use minima_pi_net_os.Updater.Version.{dotted, parse_version-dotted}

info_of-named :
    (w : World) (current : Str) (tag : Fields) (more : Items) (version : Str)
    → get (codes "name") tag ≡ some (str (b'v' ∷ version))
    → info_of w current (some (arr (cons (obj tag) more)))
      ≡ ok (with_tag w current (b'v' ∷ version))
unfolding info_of tag_name_of member_or_empty info_of_tag is_falsy
info_of-named w current tag more version named = rw (named, member_or_empty) refl

-- Whatever is found is stamped with the time of the check.
tagless-stamped :
    (w : World) (current error : Str) (falsy : Bool) (info : UpdateInfo)
    → (if falsy then ok (without_tags w current error) else raise attribute_error) ≡ ok info
    → info.last_checked ≡ w.now
tagless-stamped w current error true info h = sym (ap (λ i. i.last_checked) (ok-injective h))
tagless-stamped w current error false info h = absurd (cc)

info_of_tag-stamped :
    (w : World) (current : Str) (v : Value) (info : UpdateInfo)
    → info_of_tag w current v ≡ ok info
    → info.last_checked ≡ w.now
unfolding info_of_tag is_falsy
info_of_tag-stamped w current (str []) info h = sym (ap (λ i. i.last_checked) (ok-injective h))
info_of_tag-stamped w current (str (c ∷ s)) info h = sym (ap (λ i. i.last_checked) (ok-injective h))
info_of_tag-stamped w current null info h = tagless-stamped w current _ (is_falsy null) info h
info_of_tag-stamped w current (bool b) info h =
    tagless-stamped w current _ (is_falsy (bool b)) info h
info_of_tag-stamped w current (int i) info h = tagless-stamped w current _ (is_falsy (int i)) info h
info_of_tag-stamped w current (float t) info h =
    tagless-stamped w current _ (is_falsy (float t)) info h
info_of_tag-stamped w current (arr xs) info h =
    tagless-stamped w current _ (is_falsy (arr xs)) info h
info_of_tag-stamped w current (obj fs) info h =
    tagless-stamped w current _ (is_falsy (obj fs)) info h

info_of-stamped :
    (w : World) (current : Str) (tags : Option Value) (info : UpdateInfo)
    → info_of w current tags ≡ ok info
    → info.last_checked ≡ w.now
unfolding info_of
info_of-stamped w current none info h = sym (ap (λ i. i.last_checked) (ok-injective h))
info_of-stamped w current (some tags) info h =
    let (v, named, made) = bind-ok (tag_name_of tags) (info_of_tag w current) h in
    info_of_tag-stamped w current v info made

-- After such a save nothing is due before the interval has passed.
should_auto_check-saved :
    (later : World) (d : Disk) (info : UpdateInfo) (now : ℕ)
    → info.last_checked ≡ now
    → now ≤ later.now
    → later.now < now + later.cpip_update_interval
    → should_auto_check later (record d { state_file = some (info_to_dict info) }) ≡ ok false
unfolding should_auto_check load_update_state last_checked_of info_to_dict is_due get str_beq ◌-ℤ◌
should_auto_check-saved later d info now stamped order soon =
    let early : ltb_ℤ (pos later.now -ℤ pos info.last_checked) (pos later.cpip_update_interval)
        ≡ true =
      ground (arith) in
    rw early refl

module _ (w : World) (d : Disk) where
  -- GitHub answers with a list of tags whose first is named `v` and a version: the check succeeds with
  -- that version as the latest, it says that an update is available exactly where the version is newer
  -- than the current one, and what it found is saved where the state file can be written.
  pub check_for_update-tag :
      (current : Str) (tag : Fields) (more : Items) (n : ℕ) (ns : List ℕ)
      → w.tags ≡ some (arr (cons (obj tag) more))
      → get (codes "name") tag ≡ some (str (b'v' ∷ dotted n ns))
      → let (r, after) = check_for_update w (some current) d in
        (info : UpdateInfo) × (r ≡ ok info)
        × (info.latest_version ≡ dotted n ns)
        × (info.update_available ≡ version_lt (parse_version current) (n ∷ ns))
        × (info.error ≡ [])
        × (after ≡ save_update_state w (info_to_dict info) d)
  unfolding check_for_update info_of tag_name_of member_or_empty info_of_tag is_falsy
  check_for_update-tag current tag more n ns answered named =
      let (parsed, bare) = parse_version-dotted n ns in
      let found : info_of w current w.tags ≡ ok (with_tag w current (b'v' ∷ dotted n ns)) =
        ap (info_of w current) answered ∙ info_of-named w current tag more (dotted n ns) named in
      rw found (
        with_tag w current (b'v' ∷ dotted n ns),
        refl,
        bare,
        ap (λ v. version_lt (parse_version current) (parse_version v)) bare
            ∙ ap (version_lt (parse_version current)) parsed,
        refl,
        refl,
      )

save_update_state-written :
    (w : World) (v : Value) (d : Disk)
    → w.state_writable ≡ true
    → save_update_state w v d ≡ record d { state_file = some v }
unfolding save_update_state
save_update_state-written w v d writable = rw writable refl

auto_update_check-idle :
    (w : World) (d : Disk) → should_auto_check w d ≡ ok false → auto_update_check w d ≡ (ok none, d)
unfolding auto_update_check auto_due
auto_update_check-idle w d idle =
    if-both (λ r. r ≡ (ok none, d)) (w.cpip_enabled && w.cpip_update_auto)
      (ap (λ due. auto_due w due d) idle) refl

-- A check that was saved puts off the next automatic check until the interval has passed: before
-- that it answers nothing, and leaves the disk as it is.
pub auto_update_check-rests :
    (w later : World) (d : Disk) (current : Str) (info : UpdateInfo)
    → (check_for_update w (some current) d).0 ≡ ok info
    → w.state_writable ≡ true
    → w.now ≤ later.now
    → later.now < w.now + later.cpip_update_interval
    → let after = (check_for_update w (some current) d).1 in
      auto_update_check later after ≡ (ok none, after)
unfolding check_for_update
auto_update_check-rests w later d current info found writable order soon =
    elim (Result-cases (info_of w current w.tags)) [
      | inl (e, bad) ↦
          let clash : (saved w (raise e) d).0 ≡ ok info = rw bad at found in absurd (cc)
      | inr (i, made) ↦
          rw (made, save_update_state-written w (info_to_dict i) d writable)
            (auto_update_check-idle later (record d { state_file = some (info_to_dict i) })
              (should_auto_check-saved later d i w.now (info_of-stamped w current w.tags i made)
                order soon))
    ]
