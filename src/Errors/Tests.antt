-- ===== src/Errors/Tests.antt =====
-- Runs of `translateError`.
use btclibwallet.Prelude.{◌≡◌, refl}
use btclibwallet.Errors.{translate_error, with_kind, not_exist, io, message, err_not_exist}

translate-not_exist : translate_error (with_kind not_exist "no wallet") ≡ message err_not_exist
unfolding translate_error
translate-not_exist = refl

translate-io : translate_error (with_kind io "disk") ≡ with_kind io "disk"
unfolding translate_error
translate-io = refl
