-- ===== src/Modules/Pe.antt =====
-- modules/pe.rs: the scan of the modules that Windows lists. A module stays pinned while its image
-- is read.
pub mod Image
pub mod Listing
pub mod Scan
pub mod Sections
mod Tests
use framehopunwind.Base.{
  ℕ, zero, suc, ◌+◌, Option, none, some, List, [], ◌∷◌, HashMap, length, take, leb, ◌==◌,
  if◌then◌else◌,
}
use framehopunwind.Framehop.{Framehop}
use framehopunwind.Modules.Refresh.{EnumResult, Fed, fingerprint_of}
use framehopunwind.Modules.Scanning.{add_image}
use framehopunwind.Modules.Pe.Image.{PeBackend, pe_timestamp, build_pe_module}

-- What Windows answers: the handles loaded at each attempt to list them (or a failure), the module
-- that pinning a handle gives (or that it vanished), its base and size, and the bytes in memory.
-- The hasher is the standard library's.
pub record Windows : Type 0 where
  pub process_modules : ℕ → Option (List ℕ)
  pub pin : ℕ → Option ℕ
  pub information : ℕ → Option (ℕ × ℕ)
  pub mem : ℕ → ℕ
  pub hasher : List Fed → ℕ

-- One attempt, with a buffer of `len` handles, which the call fills with the first `len` of the list:
-- what the buffer then holds, or the number to make room for.
pub data Listed : Type 0 where
  failed : Listed
  complete : (handles : List ℕ) → Listed
  truncated : (count : ℕ) → Listed

unfoldable pub list_once : ℕ → Option (List ℕ) → Listed
list_once len none = failed
list_once len (some handles) =
    if leb (length handles) len then complete (take len handles) else truncated (length handles)

-- The length of the next attempt's buffer.
abbrev pub resized : Listed → ℕ
resized (truncated count) = count + 8
resized _ = 0

-- What the attempt gives, given what the later attempts would.
abbrev pub listed_or : Option (List ℕ) → Listed → Option (List ℕ)
listed_or later failed = none
listed_or later (complete handles) = some handles
listed_or later (truncated count) = later

-- The loop, over the attempts that are left.
unfoldable pub list_modules : Windows → ℕ → ℕ → ℕ → Option (List ℕ)
unfolding list_once
list_modules win zero attempt len = none
list_modules win (suc left) attempt len =
    let once = list_once len (win.process_modules attempt) in
    let later = list_modules win left (attempt + 1) (resized once) in listed_or later once

-- `FreeLibrary`: one pin of the module goes.
unfoldable pub free_library : ℕ → List ℕ → List ℕ
free_library p [] = []
free_library p (q ∷ held) = let rest = free_library p held in if q == p then held else q ∷ rest

-- The result so far, and the modules that the scan holds pinned.
pub record PeScan (fh : Framehop) : Type 0 where
  pub result : EnumResult fh
  pub held : List ℕ

module _ {fh : Framehop} (pe : PeBackend fh) (win : Windows) (known : HashMap ℕ) where
  unfoldable pub scan_image : Option (ℕ × ℕ) → PeScan fh → PeScan fh
  scan_image none s = s
  scan_image (some (base, size)) s =
      let fp = fingerprint_of win.hasher (size ∷ pe_timestamp win.mem base ∷ []) [] in
      if base == 0 then s else record s {
        result = add_image known base fp (build_pe_module pe win.mem base size) s.result;
      }

  unfoldable pub scan_pinned : Option ℕ → PeScan fh → PeScan fh
  unfolding scan_image free_library
  scan_pinned none s = s
  scan_pinned (some pinned) s =
      let after = scan_image (win.information pinned) (record s { held = pinned ∷ s.held }) in
      if pinned == 0 then s else record after { held = free_library pinned after.held }

  -- The loop over the handles.
  unfoldable pub scan_handles : List ℕ → PeScan fh → PeScan fh
  unfolding scan_pinned
  scan_handles [] s = s
  scan_handles (h ∷ l) s = scan_handles l (scan_pinned (win.pin h) s)

  abbrev pub scan_listed : Option (List ℕ) → Option (EnumResult fh)
  scan_listed none = none
  scan_listed (some l) =
      some
        (scan_handles l
          (record { result = record { current = []; new_modules = [] }; held = [] })).result

  -- `enumerate`, with its 8 attempts, the first without a buffer.
  unfoldable pub enumerate : Option (EnumResult fh)
  unfolding list_modules scan_handles
  enumerate = scan_listed (list_modules win 8 0 0)
