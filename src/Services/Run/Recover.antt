-- ===== src/Services/Run/Recover.antt =====
-- What `recover_service` of src/adbd/services.c stores and answers.
