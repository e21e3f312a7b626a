-- ===== src/Uefi/ExitLoop.antt =====
-- The loop of src/uefi.rs that leaves the boot services.
use mushix.Prelude.{ℕ, suc, ◌≡◌, refl, true, ok}
use mushix.Uefi.{
  MemoryMapHolder, EfiStatus, success, same_status, BootServices, exit_from_efi_boot_services,
}

same_status_lem : (a b : EfiStatus) → same_status a b ≡ true
same_status_lem success success = refl

-- Whatever the firmware does, the loop ends in its first round: the map of the one call of
-- `get_memory_map` is kept, and its key is passed on once.
exit_from_efi_boot_services_lem {ℓ} :
    {S : Type ℓ} (boot_services : BootServices S) (fuel : ℕ) (s : S) (map : MemoryMapHolder)
    → (let (_, filled, s') = boot_services.get_memory_map s map in
        let (_, s'') = boot_services.exit_boot_services s' filled.map_key in
        exit_from_efi_boot_services boot_services (suc fuel) s map ≡ ok (filled, s''))
unfolding exit_from_efi_boot_services
exit_from_efi_boot_services_lem boot_services fuel s map =
    rw (same_status_lem _ success, same_status_lem _ success) refl
